-- ===== src/Json/Objects.antt =====
-- cpp/include/common.hpp: what `json_get_string`, `json_get_number` and `json_get_integer` find in an
-- object without objects inside, as the program writes them.
use sys_net_mon.Base.{
  ℕ, Bool, true, false, ◌&&◌, ◌||◌, Option, none, some, List, [], ◌∷◌, ◌++◌, Bytes, ◌≡◌, ◌≢◌, refl,
  ◌∙◌, arith, leb, ◌==◌, str_eq, if◌then◌else◌, and_then, Lacks, Bool-cases, inl, inr, ◌⊎◌,
  drop_while,
}
use sys_net_mon.Text.{quote, is_space}
use sys_net_mon.Json.{strip_prefix, match_colon, match_key, regex_search, field}

-- a member of an object: a key with a string, or with a number
pub data Member : Type 0 where
  text number : Bytes → Bytes → Member

abbrev pub key_of : Member → Bytes
key_of (text key value) = key
key_of (number key value) = key

-- what stands behind the colon, and `rest`
abbrev pub value_then : Member → Bytes → Bytes
value_then (text key value) rest = quote ∷ (value ++ quote ∷ rest)
value_then (number key value) rest = value ++ rest

abbrev pub member_then : Member → Bytes → Bytes
member_then m rest = quote ∷ (key_of m ++ quote ∷ b':' ∷ value_then m rest)

-- the members behind the first one
abbrev pub more_members : List Member → Bytes
more_members [] = b'}' ∷ []
more_members (m ∷ ms) = b',' ∷ member_then m (more_members ms)

abbrev pub object : Member → List Member → Bytes
object m ms = b'{' ∷ member_then m (more_members ms)

-- the first member with a key
unfoldable pub find_member : Bytes → List Member → Option Member
find_member key [] = none
find_member key (m ∷ ms) = if str_eq key (key_of m) then some m else find_member key ms

-- small letters and `_`, of which the program's keys consist
unfoldable pub is_key_byte : ℕ → Bool
is_key_byte c = leb b'a' c && leb c b'z' || c == b'_'

-- a key is not empty
unfoldable pub is_key : Bytes → Bool
unfolding is_key_byte
is_key [] = false
is_key (c ∷ []) = is_key_byte c
is_key (c ∷ d ∷ s) = is_key_byte c && is_key (d ∷ s)

abbrev pub IsMember : Member → Type 0
IsMember (text key value) = (is_key key ≡ true) × Lacks quote value
IsMember (number key value) = (is_key key ≡ true) × Lacks quote value

pub key-Lacks : (key : Bytes) → is_key key ≡ true → Lacks quote key
unfolding is_key is_key_byte
key-Lacks [] h = tt
key-Lacks (c ∷ []) h = (λ p. ground arith, tt)
key-Lacks (c ∷ d ∷ s) h = (λ p. ground arith, key-Lacks (d ∷ s) (ground arith))

strip-quoted :
    (key w rest : Bytes)
    → Lacks quote key
    → Lacks quote w
    → strip_prefix (key ++ quote ∷ []) (w ++ quote ∷ rest)
      ≡ (if str_eq key w then some rest else none)
unfolding strip_prefix str_eq
strip-quoted [] [] rest h k = refl
strip-quoted [] (c ∷ w) rest h (kc, k) = ground arith
strip-quoted (p ∷ key) [] rest (hp, h) k = ground arith
strip-quoted (p ∷ key) (c ∷ w) rest (hp, h) (kc, k) = ground (arith, strip-quoted key w rest h k)

strip_other :
    (key s : Bytes) (c : ℕ)
    → is_key key ≡ true
    → is_key_byte c ≡ false
    → strip_prefix (key ++ quote ∷ []) (c ∷ s) ≡ none
unfolding strip_prefix is_key
strip_other [] s c h k = ground arith
strip_other (p ∷ []) s c h k = ground arith
strip_other (p ∷ q ∷ key) s c h k = ground arith

-- what may stand behind a value
abbrev pub is_end : ℕ → Bool
is_end c = c == b',' || c == b'}'

pub IsMember-key : (mem : Member) → IsMember mem → Lacks quote (key_of mem)
IsMember-key (text key value) h = key-Lacks key h.0
IsMember-key (number key value) h = key-Lacks key h.0

module _ (m : Bytes → Option Bytes) (key : Bytes) (named : is_key key ≡ true) where
  -- a match starts at a quote only
  pub search_byte :
      (c : ℕ) (s : Bytes)
      → c ≢ quote
      → regex_search (field m key) (c ∷ s) ≡ regex_search (field m key) s
  unfolding field match_key strip_prefix regex_search
  search_byte c s h = ground arith

  search-Lacks :
      (s t : Bytes)
      → Lacks quote s
      → regex_search (field m key) (s ++ t) ≡ regex_search (field m key) t
  search-Lacks [] t h = refl
  search-Lacks (c ∷ s) t (hc, h) = search_byte c (s ++ t) hc ∙ search-Lacks s t h

  search_miss :
      (c : ℕ) (s : Bytes)
      → field m key (c ∷ s) ≡ none
      → regex_search (field m key) (c ∷ s) ≡ regex_search (field m key) s
  unfolding regex_search
  search_miss c s h = rw (h, regex_search) refl

  pub search_hit :
      (c : ℕ) (s t : Bytes)
      → field m key (c ∷ s) ≡ some t
      → regex_search (field m key) (c ∷ s) ≡ some t
  unfolding regex_search
  search_hit c s t h = rw (h, regex_search) refl

  -- a quote that is not in front of a key
  pub search_closing :
      (c : ℕ) (s : Bytes)
      → is_key_byte c ≡ false
      → regex_search (field m key) (quote ∷ c ∷ s) ≡ regex_search (field m key) (c ∷ s)
  search_closing c s h =
      search_miss quote (c ∷ s)
        (unfold field match_key strip_prefix in rw (strip_other key s c named h) refl)

  pub field_quoted :
      (w rest : Bytes)
      → Lacks quote w
      → field m key (quote ∷ (w ++ quote ∷ rest))
        ≡ (if str_eq key w then and_then (match_colon rest) m else none)
  unfolding field match_key strip_prefix
  field_quoted w rest h = elim (Bool-cases (str_eq key w)) [
    | inl k ↦ rw (strip-quoted key w rest (key-Lacks key named) h, k) refl
    | inr k ↦ rw (strip-quoted key w rest (key-Lacks key named) h, k) refl
  ]

  no_key :
      (w rest : Bytes)
      → Lacks quote w
      → (str_eq key w ≡ false) ⊎ (match_colon rest ≡ none)
      → field m key (quote ∷ (w ++ quote ∷ rest)) ≡ none
  no_key w rest h (inl k) = field_quoted w rest h ∙ rw k refl
  no_key w rest h (inr k) = field_quoted w rest h ∙ rw k (ground arith)

  search-quoted :
      (w rest : Bytes) (c : ℕ)
      → Lacks quote w
      → (str_eq key w ≡ false) ⊎ (match_colon (c ∷ rest) ≡ none)
      → is_key_byte c ≡ false
      → c ≢ quote
      → regex_search (field m key) (quote ∷ (w ++ quote ∷ c ∷ rest))
        ≡ regex_search (field m key) rest
  search-quoted w rest c h k out other =
      search_miss quote (w ++ quote ∷ c ∷ rest) (no_key w (c ∷ rest) h k)
      ∙ search-Lacks w (quote ∷ c ∷ rest) h
      ∙ search_closing c rest out
      ∙ search_byte c rest other

  pub search-value :
      (mem : Member) (c : ℕ) (rest : Bytes)
      → IsMember mem
      → is_end c ≡ true
      → regex_search (field m key) (value_then mem (c ∷ rest)) ≡ regex_search (field m key) rest
  search-value (text k v) c rest (_, h) end =
      search-quoted v rest c h
        (inr (unfold match_colon strip_prefix drop_while is_space in ground arith))
        (unfold is_key_byte in ground arith) (λ p. ground arith)
  search-value (number k v) c rest (_, h) end =
      search-Lacks v (c ∷ rest) h ∙ search_byte c rest (λ p. ground arith)

  pub search-member :
      (mem : Member) (c : ℕ) (rest : Bytes)
      → IsMember mem
      → str_eq key (key_of mem) ≡ false
      → is_end c ≡ true
      → regex_search (field m key) (member_then mem (c ∷ rest)) ≡ regex_search (field m key) rest
  search-member mem c rest h other end =
      search-quoted (key_of mem) (value_then mem (c ∷ rest)) b':' (IsMember-key mem h) (inl other)
        (unfold is_key_byte in refl) (λ p. ground arith)
      ∙ search-value mem c rest h end
