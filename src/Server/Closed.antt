-- ===== src/Server/Closed.antt =====
-- cpp/server/main.cpp: the connections that a round of `run` keeps, and those that it closes.
use sys_net_mon.Base.{
  ℕ, zero, suc, ◌+◌, Bool, true, false, ◌&&◌, ◌||◌, not, List, [], ◌∷◌, ◌++◌, map, reverse,
  append-nil, append_assoc, Bytes, ◌≡◌, refl, ap, sym, subst, ◌∙◌, arith, if◌then◌else◌, returned,
  >>=-eq-returned, at, ltb, length, length-append, length-map, Bool-cases, inl, inr,
}
use sys_net_mon.Machine.{Machine}
use sys_net_mon.Server.{ClientConnection, MonitorServer}
use sys_net_mon.Server.Lines.{is_empty, read_client, read_lines, set_buffer}
use sys_net_mon.Server.Rounds.{
  Ready, is_set, fd_isset, fd_setsize, fds, disconnect_all, serve_client, serve_clients,
  accept_if_ready, serve_round,
}
use sys_net_mon.Server.Reach.{serve_client-Talks, serve_clients-Talks}
use sys_net_mon.Server.Sockets.{Talks-SameSockets}
use sys_net_mon.Server.Closing.{keep, pick, indices, closing_flags, disconnect-indices}

-- The peer is gone: an error is reported, or there is something to read and it is the end.
unfoldable pub is_gone : Ready → ℕ → Bool
unfolding is_empty is_set
is_gone r fd = is_set fd r.error_set || (is_set fd r.read_set && is_empty (r.received fd))

-- the elements that fail a test, and those that pass it
unfoldable pub without : (ℕ → Bool) → List ℕ → List ℕ
without p [] = []
without p (x ∷ xs) = if p x then without p xs else x ∷ without p xs

unfoldable pub only : (ℕ → Bool) → List ℕ → List ℕ
only p [] = []
only p (x ∷ xs) = if p x then x ∷ only p xs else only p xs

keep-map :
    (p : ℕ → Bool) (cs ds : List ClientConnection)
    → fds ds ≡ fds cs
    → fds (keep (map p (fds cs)) ds) ≡ without p (fds cs)
unfolding keep without
keep-map p [] [] h = refl
keep-map p [] (d ∷ ds) h = cc
keep-map p (c ∷ cs) [] h = cc
keep-map p (c ∷ cs) (d ∷ ds) h = ground (arith, keep-map p cs ds (ground arith))

pick-map :
    (p : ℕ → Bool) (cs ds : List ClientConnection)
    → fds ds ≡ fds cs
    → fds (pick (map p (fds cs)) ds) ≡ only p (fds cs)
unfolding pick only
pick-map p [] ds h = refl
pick-map p (c ∷ cs) [] h = cc
pick-map p (c ∷ cs) (d ∷ ds) h = ground (arith, pick-map p cs ds (ground arith))

length_flags :
    (p : ℕ → Bool) (cs ds : List ClientConnection)
    → fds ds ≡ fds cs
    → length (map p (fds cs)) ≡ length ds
length_flags p cs ds h =
    length-map (fds cs) p ∙ ap length (sym h) ∙ length-map ds (λ (c : ClientConnection). c.fd)

module _ {D : Type 0} where
  returned_eq : (t u : MonitorServer D) → returned u ≡ returned t → t ≡ u
  returned_eq t u h = ground arith

module _ {D : Type 0} (e : Machine D) (r : Ready) where
  read_client-answer :
      (index : ℕ) (chunk : Bytes) (s : MonitorServer D) (result : Bool × MonitorServer D)
      → read_client e index chunk s ≡ returned result
      → result.0 ≡ not (is_empty chunk)
  unfolding read_client is_empty
  read_client-answer index [] s result h = ground arith
  read_client-answer index (c ∷ chunk) s result h =
      let (client, there, rest) = >>=-eq-returned (at s.clients index) _ h in
      let (s', read, done) =
        >>=-eq-returned
          (read_lines e (suc (length (client.buffer ++ c ∷ chunk))) index
            (set_buffer index client (client.buffer ++ c ∷ chunk) s))
          _ rest in
      ground arith

  serve_client-flag :
      (index : ℕ) (s : MonitorServer D) (result : Bool × MonitorServer D)
      (client : ClientConnection)
      → at s.clients index ≡ returned client
      → serve_client e r index s ≡ returned result
      → result.0 ≡ is_gone r client.fd
  unfolding serve_client is_gone fd_isset
  serve_client-flag index s result client there h = elim (Bool-cases (ltb client.fd fd_setsize)) [
    | inr outside ↦ absurd (let h' = rw (there, outside) at h in ground arith)
    | inl fits ↦
        let h' = rw (there, fits) at h in
        elim (Bool-cases (is_set client.fd r.error_set)) [
          | inl failing ↦ ground arith
          | inr fine ↦ elim (Bool-cases (is_set client.fd r.read_set)) [
            | inr silent ↦ ground arith
            | inl waiting ↦
                let (answer, read, done) =
                  >>=-eq-returned (read_client e index (r.received client.fd) s) _
                    (rw (fine, waiting) at h') in
                let said = read_client-answer index (r.received client.fd) s answer read in
                ground arith
          ]
        ]
  ]

  at-fds :
      (cs : List ClientConnection) (pre : List ℕ) (fd : ℕ) (suf : List ℕ)
      → fds cs ≡ pre ++ fd ∷ suf
      → (c : ClientConnection) × (at cs (length pre) ≡ returned c) × (c.fd ≡ fd)
  at-fds [] [] fd suf h = cc
  at-fds [] (p ∷ pre) fd suf h = cc
  at-fds (c ∷ cs) [] fd suf h = (c, refl, ground arith)
  at-fds (c ∷ cs) (p ∷ pre) fd suf h = at-fds cs pre fd suf (ground arith)

  -- the mark that a client leaves
  mark :
      (b : Bool) (marked : List ℕ) (index fd : ℕ) (suf : List ℕ)
      → b ≡ is_gone r fd
      → (if b then marked ++ index ∷ [] else marked) ++ indices (index + 1) (map (is_gone r) suf)
        ≡ marked ++ indices index (map (is_gone r) (fd ∷ suf))
  unfolding indices
  mark true marked index fd suf h =
      rw (← h) (append_assoc marked (index ∷ []) (indices (index + 1) (map (is_gone r) suf)))
  mark false marked index fd suf h = rw (← h)

  serve_clients-flags :
      (count index : ℕ) (marked : List ℕ) (s : MonitorServer D) (result : List ℕ × MonitorServer D)
      (pre suf : List ℕ)
      → serve_clients e r count index marked s ≡ returned result
      → fds s.clients ≡ pre ++ suf
      → length pre ≡ index
      → length suf ≡ count
      → result.0 ≡ marked ++ indices index (map (is_gone r) suf)
  unfolding serve_clients
  serve_clients-flags zero index marked s result pre [] h same before count =
      unfold indices in (ground arith ∙ sym (append-nil marked))
  serve_clients-flags zero index marked s result pre (f ∷ suf) h same before count =
      absurd (omega (arith, count))
  serve_clients-flags (suc n) index marked s result pre [] h same before count =
      absurd (omega (arith, count))
  serve_clients-flags (suc n) index marked s result pre (f ∷ suf) h same before count =
      let (one_result, served, left) = >>=-eq-returned (serve_client e r index s) _ h in
      let (c, there, fd_eq) = at-fds s.clients pre f suf same in
      let flag : one_result.0 ≡ is_gone r f =
        serve_client-flag index s one_result c
          (subst (λ i. at s.clients i ≡ returned c) before there) served
        ∙ ap (is_gone r) fd_eq in
      let still =
        Talks-SameSockets e s one_result.1 (serve_client-Talks e r index s one_result served) in
      serve_clients-flags n (index + 1) _ one_result.1 result (pre ++ f ∷ []) suf left
        (still.open_fds ∙ same ∙ sym (append_assoc pre (f ∷ []) suf))
        (length-append pre (f ∷ []) ∙ omega (arith, before)) (omega (arith, count))
      ∙ mark one_result.0 marked index f suf flag

  -- The indices that are marked are those of open connections, so that all of these are closed.
  pub closing_lem :
      (s : MonitorServer D) (result : List ℕ × MonitorServer D)
      → serve_clients e r (length s.clients) 0 [] s ≡ returned result
      → disconnect_all (reverse result.0) result.1
        ≡ returned (closing_flags [] (map (is_gone r) (fds s.clients)) result.1.clients result.1)
  closing_lem s result served =
      let flags = map (is_gone r) (fds s.clients) in
      let u = result.1 in
      let still =
        Talks-SameSockets e s u (serve_clients-Talks e r (length s.clients) 0 [] s result served) in
      let marked : result.0 ≡ indices 0 flags =
        serve_clients-flags (length s.clients) 0 [] s result [] (fds s.clients) served refl refl
          (length-map s.clients (λ c. c.fd)) in
      ap (λ is. disconnect_all (reverse is) u) marked
      ∙ disconnect-indices flags u.clients [] u
          (length_flags (is_gone r) s.clients u.clients still.open_fds) refl

  -- After a round that returns, the open connections are those of before, with the one that was
  -- accepted, but for those whose peer is gone, and just these were closed, each once and the last
  -- one first.
  pub serve_round-closed :
      (s t : MonitorServer D)
      → serve_round e r s ≡ returned t
      → (fds t.clients ≡ without (is_gone r) (fds (accept_if_ready r s).clients))
        × (t.closed
            ≡ (accept_if_ready r s).closed
              ++ reverse (only (is_gone r) (fds (accept_if_ready r s).clients)))
        × (t.listen_fd ≡ (accept_if_ready r s).listen_fd)
  unfolding serve_round
  serve_round-closed s t h =
      let s1 = accept_if_ready r s in
      let flags = map (is_gone r) (fds s1.clients) in
      let (result, served, rest) =
        >>=-eq-returned (serve_clients e r (length s1.clients) 0 [] s1) _ h in
      let u = result.1 in
      let still =
        Talks-SameSockets e s1 u
          (serve_clients-Talks e r (length s1.clients) 0 [] s1 result served) in
      let final : t ≡ closing_flags [] flags u.clients u =
        returned_eq t _ (sym (closing_lem s1 result served) ∙ rest) in
      (
        ap (λ (x : MonitorServer D). fds x.clients) final
            ∙ keep-map (is_gone r) s1.clients u.clients still.open_fds,
        ap (λ (x : MonitorServer D). x.closed) final
            ∙ ap (λ x. u.closed ++ reverse x)
                (pick-map (is_gone r) s1.clients u.clients still.open_fds)
            ∙ ap (λ x. x ++ reverse (only (is_gone r) (fds s1.clients))) still.closed_fds,
        ap (λ (x : MonitorServer D). x.listen_fd) final ∙ still.listening,
      )
