-- ===== src/Server/Framing.antt =====
-- cpp/server/main.cpp: the complete lines of the bytes that `read_client` collects, and what is left.
use sys_net_mon.Base.{
  ◌<◌, none, some, List, [], ◌∷◌, ◌++◌, append_assoc, append-nil, Bytes, ◌≡◌, refl, sym, arith,
  if◌then◌else◌, Bool-cases, Option-cases, inl, inr, Lacks, All-append, length, ◌==◌,
}
use sys_net_mon.Text.{newline}
use sys_net_mon.Server.Lines.{split_line}

-- The complete lines of `cur ++ s`, and what is left behind the last newline, where `cur` holds no
-- newline.
unfoldable pub lines : Bytes → Bytes → List Bytes
lines cur [] = []
lines cur (c ∷ s) =
    let more = cur ∷ lines [] s in
    let longer = lines (cur ++ c ∷ []) s in if c == newline then more else longer

unfoldable pub rest : Bytes → Bytes → Bytes
rest cur [] = cur
rest cur (c ∷ s) =
    let fresh = rest [] s in
    let longer = rest (cur ++ c ∷ []) s in if c == newline then fresh else longer

pub lines-append : (a b cur : Bytes) → lines cur (a ++ b) ≡ lines cur a ++ lines (rest cur a) b
unfolding lines rest
lines-append [] b cur = refl
lines-append (c ∷ a) b cur = ground (arith, lines-append a b [], lines-append a b (cur ++ c ∷ []))

pub rest-append : (a b cur : Bytes) → rest cur (a ++ b) ≡ rest (rest cur a) b
unfolding rest
rest-append [] b cur = refl
rest-append (c ∷ a) b cur = ground (arith, rest-append a b [], rest-append a b (cur ++ c ∷ []))

-- A beginning without a newline belongs to the first line.
pub lines_prefix : (p s cur : Bytes) → Lacks newline p → lines cur (p ++ s) ≡ lines (cur ++ p) s
unfolding lines
lines_prefix [] s cur h = rw append-nil
lines_prefix (c ∷ p) s cur (hc, hp) =
    ground (arith, lines_prefix p s (cur ++ c ∷ []) hp, append_assoc cur (c ∷ []) p)

pub rest_prefix : (p s cur : Bytes) → Lacks newline p → rest cur (p ++ s) ≡ rest (cur ++ p) s
unfolding rest
rest_prefix [] s cur h = rw append-nil
rest_prefix (c ∷ p) s cur (hc, hp) =
    ground (arith, rest_prefix p s (cur ++ c ∷ []) hp, append_assoc cur (c ∷ []) p)

pub rest-Lacks : (s cur : Bytes) → Lacks newline cur → Lacks newline (rest cur s)
unfolding rest
rest-Lacks [] cur h = h
rest-Lacks (c ∷ s) cur h = elim (Bool-cases (c == newline)) [
  | inl is_newline ↦ rw is_newline (rest-Lacks s [] tt)
  | inr other ↦
      rw other (rest-Lacks s (cur ++ c ∷ []) (All-append _ cur (c ∷ []) h (ground arith, tt)))
]

-- What `split_line` finds, in these terms.
pub split_none :
    (s cur : Bytes) → split_line s ≡ none → (lines cur s ≡ []) × (rest cur s ≡ cur ++ s)
unfolding split_line lines rest
split_none [] cur h = (refl, sym (append-nil cur))
split_none (c ∷ s) cur h = ground (arith, split_none s (cur ++ c ∷ []), append_assoc cur (c ∷ []) s)

pub split_some :
    (s cur l r : Bytes)
    → split_line s ≡ some (l, r)
    → (lines cur s ≡ (cur ++ l) ∷ lines [] r) × (rest cur s ≡ rest [] r) × (length r < length s)
unfolding split_line lines rest
split_some [] cur l r h = cc
split_some (c ∷ s) cur l r h = elim (Bool-cases (c == newline)) [
  | inl is_newline ↦ ground (arith, append-nil cur)
  | inr other ↦ elim (Option-cases (split_line s)) [
    | inl missing ↦ absurd (ground arith)
    | inr ((l', r'), found) ↦
        ground (arith, split_some s (cur ++ c ∷ []) l' r' found, append_assoc cur (c ∷ []) l')
  ]
]
