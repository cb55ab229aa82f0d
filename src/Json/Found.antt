-- ===== src/Json/Found.antt =====
-- cpp/include/common.hpp: the value that `json_get_string`, `json_get_number` and `json_get_integer`
-- find for a key of an object.
use sys_net_mon.Base.{
  ℕ, true, false, Option, none, some, List, [], ◌∷◌, ◌++◌, Bytes, ◌≡◌, refl, sym, ◌∙◌, arith,
  str_eq, Lacks, All, Bool-cases, inl, inr, subst, drop_while,
}
use sys_net_mon.Text.{quote, is_space, drop_spaces}
use sys_net_mon.Json.{
  strip_prefix, match_key, match_colon, until_quote, match_string, regex_search, field,
  json_get_string,
}
use sys_net_mon.Json.Objects.{
  Member, text, key_of, value_then, member_then, more_members, object, find_member, is_key,
  IsMember, is_end, IsMember-key, search_byte, search_hit, field_quoted, search-member,
}

-- the matcher `m` reads `t` as the value of a member, whatever comes behind the value
abbrev pub Reads : (Bytes → Option Bytes) → Member → Bytes → Type 0
Reads m mem t =
    (c : ℕ) (rest : Bytes) → is_end c ≡ true → m (drop_spaces (value_then mem (c ∷ rest))) ≡ some t

more_tail :
    (ms : List Member) → (c : ℕ) × (rest : Bytes) × (is_end c ≡ true) × (more_members ms ≡ c ∷ rest)
more_tail [] = (b'}', [], refl, refl)
more_tail (mem ∷ ms) = (b',', member_then mem (more_members ms), refl, refl)

find_first :
    (key : Bytes) (mem : Member) (ms : List Member) (hit : Member)
    → str_eq key (key_of mem) ≡ true
    → find_member key (mem ∷ ms) ≡ some hit
    → mem ≡ hit
unfolding find_member
find_first key mem ms hit k found = ground arith

find_next :
    (key : Bytes) (mem : Member) (ms : List Member) (hit : Member)
    → str_eq key (key_of mem) ≡ false
    → find_member key (mem ∷ ms) ≡ some hit
    → find_member key ms ≡ some hit
unfolding find_member
find_next key mem ms hit k found = ground arith

find_none :
    (key : Bytes) (mem : Member) (ms : List Member)
    → find_member key (mem ∷ ms) ≡ none
    → (str_eq key (key_of mem) ≡ false) × (find_member key ms ≡ none)
unfolding find_member
find_none key mem ms absent = ground arith

module _ (m : Bytes → Option Bytes) (key : Bytes) (named : is_key key ≡ true) where
  search_here :
      (mem : Member) (ms : List Member) (t : Bytes)
      → IsMember mem
      → str_eq key (key_of mem) ≡ true
      → Reads m mem t
      → regex_search (field m key) (member_then mem (more_members ms)) ≡ some t
  search_here mem ms t h same reads =
      let (c, rest, end, eq) = more_tail ms in
      search_hit m key named quote _ t (
        field_quoted m key named (key_of mem) _ (IsMember-key mem h)
        ∙ rw (same, eq) (unfold match_colon strip_prefix drop_while is_space in reads c rest end))

  search_past :
      (mem : Member) (ms : List Member)
      → IsMember mem
      → str_eq key (key_of mem) ≡ false
      → regex_search (field m key) (member_then mem (more_members ms))
        ≡ regex_search (field m key) (more_members ms)
  search_past mem ms h other =
      let (c, rest, end, eq) = more_tail ms in
      rw eq (
        search-member m key named mem c rest h other end
        ∙ sym (search_byte m key named c rest (λ p. ground arith)))

  search_more :
      (ms : List Member) (hit : Member) (t : Bytes)
      → All IsMember ms
      → find_member key ms ≡ some hit
      → Reads m hit t
      → regex_search (field m key) (more_members ms) ≡ some t
  unfolding find_member
  search_more [] hit t hs found reads = cc
  search_more (mem ∷ ms) hit t (h, hs) found reads =
      search_byte m key named b',' (member_then mem (more_members ms)) (λ p. ground arith)
      ∙ elim (Bool-cases (str_eq key (key_of mem))) [
        | inl k ↦
            search_here mem ms t h k
              (subst (λ x. Reads m x t) (sym (find_first key mem ms hit k found)) reads)
        | inr k ↦
            search_past mem ms h k
            ∙ search_more ms hit t hs (find_next key mem ms hit k found) reads
      ]

  -- the whole object
  pub search-object :
      (mem : Member) (ms : List Member) (hit : Member) (t : Bytes)
      → All IsMember (mem ∷ ms)
      → find_member key (mem ∷ ms) ≡ some hit
      → Reads m hit t
      → regex_search (field m key) (object mem ms) ≡ some t
  search-object mem ms hit t hs found reads =
      search_byte m key named b'{' (member_then mem (more_members ms)) (λ p. ground arith)
      ∙ sym (search_byte m key named b',' (member_then mem (more_members ms)) (λ p. ground arith))
      ∙ search_more (mem ∷ ms) hit t hs found reads

  -- no member has the key
  search_none :
      (ms : List Member)
      → All IsMember ms
      → find_member key ms ≡ none
      → regex_search (field m key) (more_members ms) ≡ none
  search_none [] hs absent =
      search_byte m key named b'}' [] (λ p. ground arith)
      ∙ unfold regex_search field match_key strip_prefix in refl
  search_none (mem ∷ ms) (h, hs) absent =
      let (other, later) = find_none key mem ms absent in
      search_byte m key named b',' (member_then mem (more_members ms)) (λ p. ground arith)
      ∙ search_past mem ms h other
      ∙ search_none ms hs later

  pub search_absent :
      (mem : Member) (ms : List Member)
      → All IsMember (mem ∷ ms)
      → find_member key (mem ∷ ms) ≡ none
      → regex_search (field m key) (object mem ms) ≡ none
  search_absent mem ms hs absent =
      search_byte m key named b'{' (member_then mem (more_members ms)) (λ p. ground arith)
      ∙ sym (search_byte m key named b',' (member_then mem (more_members ms)) (λ p. ground arith))
      ∙ search_none (mem ∷ ms) hs absent

until_quote-Lacks : (s rest : Bytes) → Lacks quote s → until_quote (s ++ quote ∷ rest) ≡ some s
unfolding until_quote
until_quote-Lacks [] rest h = refl
until_quote-Lacks (c ∷ s) rest (hc, h) = ground (arith, until_quote-Lacks s rest h)

text-Reads : (key value : Bytes) → Lacks quote value → Reads match_string (text key value) value
unfolding match_string strip_prefix drop_while is_space
text-Reads key value h = λ c rest end. until_quote-Lacks value (c ∷ rest) h

find-IsMember :
    (key : Bytes) (ms : List Member) (hit : Member)
    → All IsMember ms
    → find_member key ms ≡ some hit
    → IsMember hit
unfolding find_member
find-IsMember key [] hit hs found = cc
find-IsMember key (mem ∷ ms) hit (h, hs) found = elim (Bool-cases (str_eq key (key_of mem))) [
  | inl k ↦ subst IsMember (find_first key mem ms hit k found) h
  | inr k ↦ find-IsMember key ms hit hs (find_next key mem ms hit k found)
]

-- In an object whose strings hold no quote, `json_get_string` finds the first member with the key,
-- wherever the key also stands inside of strings, if this member is a string.
pub json_get_string-object :
    (mem : Member) (ms : List Member) (key key' value : Bytes)
    → is_key key ≡ true
    → All IsMember (mem ∷ ms)
    → find_member key (mem ∷ ms) ≡ some (text key' value)
    → json_get_string (object mem ms) key ≡ some value
unfolding json_get_string
json_get_string-object mem ms key key' value named hs found =
    search-object match_string key named mem ms (text key' value) value hs found
      (text-Reads key' value (find-IsMember key (mem ∷ ms) (text key' value) hs found).1)
