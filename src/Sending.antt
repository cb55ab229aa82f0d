-- ===== src/Sending.antt =====
-- cpp/include/common.hpp: `send_line`, over what the calls of `send` return.
use sys_net_mon.Base.{
  ℕ, zero, suc, ◌≤◌, ◌<◌, Bool, true, false, [], ◌∷◌, ◌++◌, append-nil, append_assoc, Bytes, ◌≡◌,
  ◌≢◌, ◌⊎◌, inl, inr, refl, sym, ap, ◌∙◌, arith, length,
}
use sys_net_mon.Text.{newline}

-- the first bytes of a string, and those behind them
unfoldable pub front : ℕ → Bytes → Bytes
front zero s = []
front (suc n) [] = []
front (suc n) (c ∷ s) = c ∷ front n s

unfoldable pub skip : ℕ → Bytes → Bytes
skip zero s = s
skip (suc n) [] = []
skip (suc n) (c ∷ s) = skip n s

-- `calls n rest` is what the n-th call of `send` returns for the bytes that are left; 0 stands for
-- every result that is not positive. `out` holds the bytes that went out.
unfoldable pub send_loop : (ℕ → Bytes → ℕ) → ℕ → ℕ → Bytes → Bytes → Bytes × Bool
unfolding front skip
send_loop calls zero n rest out = (out, false)
send_loop calls (suc fuel) n [] out = (out, true)
send_loop calls (suc fuel) n (c ∷ rest) out = elim (calls n (c ∷ rest)) [
  | zero ↦ (out, false)
  | suc k ↦ send_loop calls fuel (suc n) (skip (suc k) (c ∷ rest)) (out ++ front (suc k) (c ∷ rest))
]

-- the bytes that went out, and the result
unfoldable pub send_line : (ℕ → Bytes → ℕ) → Bytes → Bytes × Bool
unfolding send_loop
send_line calls payload =
    let line = payload ++ newline ∷ [] in send_loop calls (suc (length line)) 0 line []

-- What went out is a front part of the line. The result is `true` if this is all of it, and `false`
-- if a part is left and a call for this part failed.
pub record IsSent (calls : ℕ → Bytes → ℕ) (line out : Bytes) (ok : Bool) : Type 0 where
  pub left : Bytes
  pub whole : out ++ left ≡ line
  pub outcome :
      ((ok ≡ true) × (left ≡ [])) ⊎ ((ok ≡ false) × (left ≢ []) × (n : ℕ) × (calls n left ≡ 0))

front-append-skip : (k : ℕ) (s : Bytes) → front k s ++ skip k s ≡ s
unfolding front skip
front-append-skip zero s = refl
front-append-skip (suc k) [] = refl
front-append-skip (suc k) (c ∷ s) = ap (λ x. c ∷ x) (front-append-skip k s)

length-skip : (k : ℕ) (s : Bytes) → length (skip k s) ≤ length s
unfolding skip
length-skip zero s = omega arith
length-skip (suc k) [] = omega arith
length-skip (suc k) (c ∷ s) = omega (arith, length-skip k s)

zero_cases : (k : ℕ) → (k ≡ 0) ⊎ ((n : ℕ) × (k ≡ suc n))
zero_cases zero = inl refl
zero_cases (suc n) = inr (n, refl)

send_loop-IsSent :
    (calls : ℕ → Bytes → ℕ) (fuel n : ℕ) (rest out line : Bytes)
    → out ++ rest ≡ line
    → length rest < fuel
    → IsSent calls line (send_loop calls fuel n rest out).0 (send_loop calls fuel n rest out).1
unfolding send_loop skip front
send_loop-IsSent calls zero n rest out line whole enough = absurd (omega arith)
send_loop-IsSent calls (suc fuel) n [] out line whole enough = record {
  left = [];
  whole = whole;
  outcome = inl (refl, refl);
}
send_loop-IsSent calls (suc fuel) n (c ∷ rest) out line whole enough =
    elim (zero_cases (calls n (c ∷ rest))) [
      | inl h ↦
          rw (h, send_loop)
            (record { left = c ∷ rest; whole = whole; outcome = inr (refl, λ p. cc, n, h) })
      | inr (k, h) ↦
          rw (h, send_loop)
            (send_loop-IsSent calls fuel (suc n) (skip k rest) (out ++ c ∷ front k rest) line
              (append_assoc out (c ∷ front k rest) (skip k rest)
                ∙ ap (λ x. out ++ c ∷ x) (front-append-skip k rest)
                ∙ whole)
              (omega (arith, length-skip k rest, enough)))
    ]

-- `send_line` comes to its end however `send` splits the line: it returns `true` if the whole line
-- with its newline went out, and `false` if a front part of it went out and `send` failed for the
-- rest.
pub send_line-IsSent :
    (calls : ℕ → Bytes → ℕ) (payload : Bytes)
    → IsSent calls (payload ++ newline ∷ []) (send_line calls payload).0 (send_line calls payload).1
unfolding send_line
send_line-IsSent calls payload =
    send_loop-IsSent calls (suc (length (payload ++ newline ∷ []))) 0 (payload ++ newline ∷ []) []
      (payload ++ newline ∷ []) refl (omega arith)

pair_eq : {a a' : Bytes} {b b' : Bool} → a ≡ a' → b ≡ b' → Path (Bytes × Bool) (a, b) (a', b')
pair_eq p q = λ i. (p i, q i)

-- each call of `send` takes a byte at least
abbrev pub IsWilling : (ℕ → Bytes → ℕ) → Type 0
IsWilling calls = (n : ℕ) (rest : Bytes) → 0 < calls n rest

-- If each call of `send` takes a byte at least, then `send_line` sends the whole line with its
-- newline, and returns `true`.
pub send_line_whole :
    (calls : ℕ → Bytes → ℕ) (payload : Bytes)
    → IsWilling calls
    → send_line calls payload ≡ (payload ++ newline ∷ [], true)
send_line_whole calls payload willing =
    let sent = send_line-IsSent calls payload in
    let whole = sent.whole in
    elim sent.outcome [
      | inl (ok, none_left) ↦
          pair_eq
            (sym (append-nil (send_line calls payload).0)
              ∙ ap (λ x. (send_line calls payload).0 ++ x) (sym none_left)
              ∙ whole)
            ok
      | inr (ok, some_left, n, failed) ↦ let more = willing n sent.left in absurd (omega arith)
    ]
