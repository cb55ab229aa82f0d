-- ===== src/Metrics/Memory/Entries.antt =====
-- cpp/include/metrics.hpp: what `collect_metrics` finds in the text that Linux shows in
-- `/proc/meminfo`.
use sys_net_mon.Base.{
  ℕ, ℤ, pos, zero, suc, ◌<◌, ◌≤◌, Bool, true, false, ◌||◌, none, some, List, [], ◌∷◌, ◌++◌, Bytes,
  codes, ◌≡◌, ◌≢◌, refl, sym, subst, ◌∙◌, arith, length, length-append, All, Each, append-nil,
  str_eq, str_eq_iff, if◌then◌else◌, Bool-cases, ◌⊎◌, inl, inr, drop_while_all,
}
use sys_net_mon.Text.{is_space, newline}
use sys_net_mon.Decimal.{limit, format_ℕ}
use sys_net_mon.Streams.{is_no_space, read_token, token_of}
use sys_net_mon.Streams.Numbers.{
  read_integer-format, read_token-append, gap-Stops, gap-Stops-is_no_space,
}
use sys_net_mon.Metrics.Memory.{
  MemInfo, read_entry, note_entry, is_positive, is_complete, read_entries, read_meminfo,
}

-- a line of the file: a key, a number and a unit
pub record Entry : Type 0 where
  pub key : Bytes
  pub gap : Bytes
  pub value : ℕ
  pub gap' : Bytes
  pub unit : Bytes

pub record IsEntry (x : Entry) : Type 0 where
  pub key_word : Each is_no_space x.key
  pub key_some : x.key ≢ []
  pub gap_blank : Each is_space x.gap
  pub gap_some : x.gap ≢ []
  pub value_fits : x.value < limit
  pub gap'_blank : Each is_space x.gap'
  pub gap'_some : x.gap' ≢ []
  pub unit_word : Each is_no_space x.unit
  pub unit_some : x.unit ≢ []

-- the file, with what follows the entries
unfoldable pub file_of : List Entry → Bytes → Bytes
file_of [] rest = rest
file_of (x ∷ xs) rest =
    x.key ++ (x.gap ++ (format_ℕ x.value ++ (x.gap' ++ (x.unit ++ newline ∷ file_of xs rest))))

-- the value of a key, or 0
unfoldable pub value_of : Bytes → List Entry → ℤ
value_of k [] = pos 0
value_of k (x ∷ xs) = if str_eq x.key k then pos x.value else value_of k xs

unfoldable pub holds : Bytes → List Entry → Bool
holds k [] = false
holds k (x ∷ xs) = str_eq x.key k || holds k xs

-- no key stands twice
unfoldable pub Unique : List Entry → Type 0
Unique [] = Unit
Unique (x ∷ xs) = (holds x.key xs ≡ false) × Unique xs

read_entry-file :
    (lead : Bytes) (x : Entry) (xs : List Entry) (rest : Bytes)
    → Each is_space lead
    → IsEntry x
    → read_entry (lead ++ file_of (x ∷ xs) rest)
      ≡ some (x.key, pos x.value, newline ∷ file_of xs rest)
unfolding read_entry file_of
read_entry-file lead x xs rest blank h = rw (
  read_token-append lead x.key _ blank h.key_word h.key_some
      (gap-Stops-is_no_space x.gap _ h.gap_blank h.gap_some),
  read_integer-format x.gap x.value (x.gap' ++ (x.unit ++ newline ∷ file_of xs rest)) h.gap_blank
      h.value_fits (gap-Stops x.gap' _ h.gap'_blank h.gap'_some),
  read_token-append x.gap' x.unit (newline ∷ file_of xs rest) h.gap'_blank h.unit_word h.unit_some
      (unfold is_space in refl),
)

read_entry-nothing : (lead : Bytes) → Each is_space lead → read_entry (lead ++ []) ≡ none
unfolding read_entry read_token token_of
read_entry-nothing lead blank = rw (append-nil lead, drop_while_all is_space lead blank)

abbrev total_key : Bytes
total_key = codes "MemTotal:"

abbrev available_key : Bytes
available_key = codes "MemAvailable:"

-- what is known after the entries `xs`, of what is known before them
abbrev updated : Bytes → List Entry → ℤ → ℤ
updated k xs old = if holds k xs then value_of k xs else old

abbrev after : List Entry → MemInfo → MemInfo
after xs m = record {
  total = updated total_key xs m.total;
  available = updated available_key xs m.available;
}

-- What was found is not found again.
record IsOnce (xs : List Entry) (m : MemInfo) : Type 0 where
  total_once : is_positive m.total ≡ true → holds total_key xs ≡ false
  available_once : is_positive m.available ≡ true → holds available_key xs ≡ false

keys_differ : (k : Bytes) → str_eq k total_key ≡ true → str_eq k available_key ≡ false
unfolding str_eq
keys_differ k h =
    subst (λ i. str_eq i available_key ≡ false) (sym ((str_eq_iff k total_key).0 h)) refl

note_total :
    (k : Bytes) (v : ℤ) (m : MemInfo)
    → (note_entry k v m).total ≡ (if str_eq k total_key then v else m.total)
unfolding note_entry
note_total k v m = ground arith

note_available :
    (k : Bytes) (v : ℤ) (m : MemInfo)
    → (note_entry k v m).available ≡ (if str_eq k available_key then v else m.available)
unfolding note_entry
note_available k v m = ground (arith, keys_differ k)

holds-key :
    (k j : Bytes) (xs : List Entry) → str_eq j k ≡ true → holds j xs ≡ false → holds k xs ≡ false
holds-key k j xs h lacks = subst (λ i. holds i xs ≡ false) ((str_eq_iff j k).0 h) lacks

updated-cons :
    (k : Bytes) (x : Entry) (xs : List Entry) (old new : ℤ)
    → holds x.key xs ≡ false
    → new ≡ (if str_eq x.key k then pos x.value else old)
    → updated k xs new ≡ updated k (x ∷ xs) old
unfolding holds value_of
updated-cons k x xs old new once eq = elim (Bool-cases (str_eq x.key k)) [
  | inl same ↦ rw (same, holds-key k x.key xs same once) (rw same at eq)
  | inr other ↦ rw other (rw (rw other at eq))
]

once-cons :
    (k : Bytes) (x : Entry) (xs : List Entry) (old new : ℤ)
    → holds x.key xs ≡ false
    → new ≡ (if str_eq x.key k then pos x.value else old)
    → (is_positive old ≡ true → holds k (x ∷ xs) ≡ false)
    → is_positive new ≡ true
    → holds k xs ≡ false
unfolding holds
once-cons k x xs old new once eq h positive = elim (Bool-cases (str_eq x.key k)) [
  | inl same ↦ holds-key k x.key xs same once
  | inr other ↦
      let same : new ≡ old = rw other at eq in
      let lacks = h (subst (λ z. is_positive z ≡ true) same positive) in ground arith
]

-- One entry is read.
module _ (x : Entry) (xs : List Entry) (m : MemInfo) (once : holds x.key xs ≡ false) where
  abbrev noted : MemInfo
  noted = note_entry x.key (pos x.value) m

  noted-IsOnce : IsOnce (x ∷ xs) m → IsOnce xs noted
  noted-IsOnce h = record {
    total_once =
        once-cons total_key x xs m.total noted.total once (note_total x.key (pos x.value) m)
          h.total_once;
    available_once =
        once-cons available_key x xs m.available noted.available once
          (note_available x.key (pos x.value) m) h.available_once;
  }

  after-noted : after xs noted ≡ after (x ∷ xs) m
  after-noted = λ i. record {
    total =
        updated-cons total_key x xs m.total noted.total once (note_total x.key (pos x.value) m) i;
    available =
        updated-cons available_key x xs m.available noted.available once
          (note_available x.key (pos x.value) m) i;
  }

-- What is complete is not changed by what follows.
after_complete :
    (xs : List Entry) (m : MemInfo) → IsOnce xs m → is_complete m ≡ true → after xs m ≡ m
unfolding is_complete
after_complete xs m h complete =
    rw (h.total_once (ground arith), h.available_once (ground arith)) refl

-- The file ends with the entries, or they hold what is looked for.
abbrev Settled : Bytes → MemInfo → Type 0
Settled rest m = (rest ≡ []) ⊎ (is_complete m ≡ true)

-- There are no more entries.
read_entries-end :
    (fuel : ℕ) (lead rest : Bytes) (m : MemInfo)
    → Each is_space lead
    → Settled rest m
    → is_complete m ≡ false
    → read_entries (suc fuel) (lead ++ rest) m ≡ m
unfolding read_entries
read_entries-end fuel lead rest m blank (inl empty) unmet =
    rw (empty, read_entry-nothing lead blank, read_entries)
read_entries-end fuel lead rest m blank (inr complete) unmet = absurd (ground arith)

read_entries-file :
    (fuel : ℕ) (lead : Bytes) (xs : List Entry) (rest : Bytes) (m : MemInfo)
    → Each is_space lead
    → All IsEntry xs
    → Unique xs
    → length xs < fuel
    → IsOnce xs m
    → Settled rest (after xs m)
    → is_complete m ≡ false
    → read_entries fuel (lead ++ file_of xs rest) m ≡ after xs m
unfolding read_entries Unique holds
read_entries-file zero lead xs rest m blank h unique enough known enter unmet = absurd (omega arith)
read_entries-file (suc fuel) lead [] rest m blank h unique enough known enter unmet =
    unfold file_of in read_entries-end fuel lead rest m blank enter unmet
read_entries-file (suc fuel) lead (x ∷ xs) rest m blank (h, hs) (once, unique) enough known enter
      unmet =
    let m' = note_entry x.key (pos x.value) m in
    let known' = noted-IsOnce x xs m once known in
    let same = after-noted x xs m once in
    rw (read_entry-file lead x xs rest blank h, read_entries)
      (elim (Bool-cases (is_complete m')) [
        | inl complete ↦ rw complete (sym (after_complete xs m' known' complete) ∙ same)
        | inr more ↦ rw more (
            read_entries-file fuel (newline ∷ []) xs rest m' (unfold is_space in (refl, tt)) hs
              unique (omega arith) known' (subst (Settled rest) (sym same) enter) more
            ∙ same)
      ])

length-file_of :
    (xs : List Entry) (rest : Bytes) → All IsEntry xs → length xs ≤ length (file_of xs rest)
unfolding file_of
length-file_of [] rest h = omega arith
length-file_of (x ∷ xs) rest (h, hs) =
    omega (arith, length-append {0} {A = ℕ}, length-file_of xs rest hs)

value_of-updated : (k : Bytes) (xs : List Entry) → updated k xs (pos 0) ≡ value_of k xs
unfolding holds value_of
value_of-updated k [] = refl
value_of-updated k (x ∷ xs) = ground (arith, value_of-updated k xs)

-- what the entries say
abbrev pub found : List Entry → MemInfo
found xs = record {
  total = value_of (codes "MemTotal:") xs;
  available = value_of (codes "MemAvailable:") xs;
}

-- Of a file that starts with entries of a key, a number and a unit, in which no key stands twice,
-- `collect_metrics` finds the values of `MemTotal` and `MemAvailable`, wherever they stand, if both
-- are positive, whatever follows; or if nothing follows, where a value that is not there counts as 0.
pub read_meminfo-file :
    (xs : List Entry) (rest : Bytes)
    → All IsEntry xs
    → Unique xs
    → (rest ≡ []) ⊎ (is_complete (found xs) ≡ true)
    → read_meminfo (some (file_of xs rest)) ≡ found xs
unfolding read_meminfo is_positive
read_meminfo-file xs rest h unique enter =
    let nothing : MemInfo = record { total = pos 0; available = pos 0 } in
    let same : after xs nothing ≡ found xs = λ i. record {
      total = value_of-updated total_key xs i;
      available = value_of-updated available_key xs i;
    } in
    read_entries-file (suc (length (file_of xs rest))) [] xs rest nothing tt h unique
      (omega (arith, length-file_of xs rest h))
      (record { total_once = λ p. cc; available_once = λ p. cc })
      (subst (Settled rest) (sym same) enter) (unfold is_complete in refl)
    ∙ same
