-- ===== src/Server/Closing.antt =====
-- cpp/server/main.cpp: the loop of `run` over `disconnect_indices`. The indices are collected from
-- the first to the last, and the connections are erased from the last to the first.
use mathlib.Core.List.{reverse-cons}
use sys_net_mon.Base.{
  ℕ, ◌+◌, Bool, true, false, List, [], ◌∷◌, ◌++◌, reverse, append-nil, append_assoc, ◌≡◌, refl, ap,
  sym, ◌∙◌, arith, if◌then◌else◌, returned, ◌>>=◌, bind_assoc, bind_cong, at, length, length-append,
}
use sys_net_mon.Server.{ClientConnection, MonitorServer}
use sys_net_mon.Server.Rounds.{fds, erase_at, disconnect_client, disconnect_all}

-- the elements whose flag is not set, and those whose flag is set
unfoldable pub keep {ℓ} : {A : Type ℓ} → List Bool → List A → List A
keep [] xs = xs
keep (f ∷ fs) [] = []
keep (f ∷ fs) (x ∷ xs) = if f then keep fs xs else x ∷ keep fs xs

unfoldable pub pick {ℓ} : {A : Type ℓ} → List Bool → List A → List A
pick [] xs = []
pick (f ∷ fs) [] = []
pick (f ∷ fs) (x ∷ xs) = if f then x ∷ pick fs xs else pick fs xs

-- the positions of the flags that are set, counted from `n`
unfoldable pub indices : ℕ → List Bool → List ℕ
indices n [] = []
indices n (f ∷ fs) = let more = indices (n + 1) fs in if f then n ∷ more else more

at-length {ℓ} :
    {A : Type ℓ} (ps : List A) (x : A) (xs : List A) → at (ps ++ x ∷ xs) (length ps) ≡ returned x
at-length [] x xs = refl
at-length (p ∷ ps) x xs = at-length ps x xs

erase-length {ℓ} :
    {A : Type ℓ} (ps : List A) (x : A) (xs : List A)
    → erase_at (length ps) (ps ++ x ∷ xs) ≡ ps ++ xs
unfolding erase_at
erase-length [] x xs = refl
erase-length (p ∷ ps) x xs = ap (λ y. p ∷ y) (erase-length ps x xs)

module _ {D : Type 0} where
  disconnect_all-append :
      (is js : List ℕ) (s : MonitorServer D)
      → disconnect_all (is ++ js) s ≡ (disconnect_all is s >>= disconnect_all js)
  unfolding disconnect_all
  disconnect_all-append [] js s = refl
  disconnect_all-append (i ∷ is) js s =
      bind_cong (disconnect_client i s) _ _ (λ t _. disconnect_all-append is js t)
      ∙ sym (bind_assoc (disconnect_client i s) _ _)

  -- what is left, and what was closed, from the last connection to the first
  abbrev pub closing_flags :
      List ClientConnection → List Bool → List ClientConnection → MonitorServer D → MonitorServer D
  closing_flags ps fs xs s = record s {
    clients = ps ++ keep fs xs;
    closed = s.closed ++ reverse (fds (pick fs xs));
  }

  -- the last connection to be closed, where the ones behind it are closed already
  disconnect_last :
      (ps : List ClientConnection) (x : ClientConnection) (xs : List ClientConnection)
      (gone : List ClientConnection) (s : MonitorServer D)
      → disconnect_all
          (length ps ∷ [])
          (record s { clients = ps ++ x ∷ xs; closed = s.closed ++ reverse (fds gone) })
        ≡ returned (record s { clients = ps ++ xs; closed = s.closed ++ reverse (fds (x ∷ gone)) })
  unfolding disconnect_all
  disconnect_last ps x xs gone s = rw (
    at-length ps x xs,
    erase-length ps x xs,
    reverse-cons x.fd (fds gone),
    append_assoc s.closed (reverse (fds gone)) (x.fd ∷ []),
  )

  -- the connections behind `x` were closed
  behind :
      (fs : List Bool) (x : ClientConnection) (xs ps : List ClientConnection) (s : MonitorServer D)
      → disconnect_all (reverse (indices (length (ps ++ x ∷ [])) fs)) s
        ≡ returned (closing_flags (ps ++ x ∷ []) fs xs s)
      → disconnect_all (reverse (indices (length ps + 1) fs)) s
        ≡ returned (record s {
          clients = ps ++ x ∷ keep fs xs;
          closed = s.closed ++ reverse (fds (pick fs xs));
        })
  behind fs x xs ps s h =
      ap (λ n. disconnect_all (reverse (indices n fs)) s) (sym (length-append ps (x ∷ [])))
      ∙ h
      ∙ ap
          (λ cs.
            returned (record s { clients = cs; closed = s.closed ++ reverse (fds (pick fs xs)) }))
          (append_assoc ps (x ∷ []) (keep fs xs))

  pub disconnect-indices :
      (fs : List Bool) (xs ps : List ClientConnection) (s : MonitorServer D)
      → length fs ≡ length xs
      → s.clients ≡ ps ++ xs
      → disconnect_all (reverse (indices (length ps) fs)) s ≡ returned (closing_flags ps fs xs s)
  unfolding indices keep pick disconnect_all
  disconnect-indices [] [] ps s same h =
      λ i. returned (record s { clients = h i; closed = sym (append-nil s.closed) i })
  disconnect-indices [] (x ∷ xs) ps s same h = absurd (omega (arith, same))
  disconnect-indices (f ∷ fs) [] ps s same h = absurd (omega (arith, same))
  disconnect-indices (true ∷ fs) (x ∷ xs) ps s same h =
      let n = length ps in
      let more = indices (n + 1) fs in
      ap (λ is. disconnect_all is s) (reverse-cons n more)
      ∙ disconnect_all-append (reverse more) (n ∷ []) s
      ∙ ap (λ m. m >>= disconnect_all (n ∷ []))
          (behind fs x xs ps s (
            disconnect-indices fs xs (ps ++ x ∷ []) s (omega (arith, same))
              (h ∙ sym (append_assoc ps (x ∷ []) xs))))
      ∙ disconnect_last ps x (keep fs xs) (pick fs xs) s
  disconnect-indices (false ∷ fs) (x ∷ xs) ps s same h = behind fs x xs ps s (
      disconnect-indices fs xs (ps ++ x ∷ []) s (omega (arith, same))
        (h ∙ sym (append_assoc ps (x ∷ []) xs)))
