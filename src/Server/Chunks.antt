-- ===== src/Server/Chunks.antt =====
-- cpp/server/main.cpp: `read_client`, chunk by chunk.
use sys_net_mon.Base.{
  ℕ, zero, suc, Bool, true, List, [], ◌∷◌, ◌++◌, append_assoc, Bytes, ◌≡◌, refl, ap, sym, ◌∙◌, ◌⊎◌,
  inl, inr, arith, Outcome, returned, undefined, ◌>>=◌, bind_assoc, bind_cong, at, >>=-eq-returned,
  length, Lacks,
}
use sys_net_mon.Machine.{Machine}
use sys_net_mon.Text.{newline}
use sys_net_mon.Server.{ClientConnection, MonitorServer}
use sys_net_mon.Server.Lines.{set_buffer, read_client}
use sys_net_mon.Server.Framing.{
  lines, rest, lines-append, rest-append, lines_prefix, rest_prefix, rest-Lacks,
}
use sys_net_mon.Server.Buffers.{with_buffer, set-eq-rebuffer, at-rebuffer}
use sys_net_mon.Server.Reading.{
  run_lines, run_lines-append, run_lines-at, run_lines_again, returned_eq, read_all, read_lines_lem,
}

at_cases :
    {A : Type 0} (xs : List A) (i : ℕ) → (at xs i ≡ undefined) ⊎ ((x : A) × (at xs i ≡ returned x))
at_cases [] i = inl refl
at_cases (x ∷ xs) zero = inr (x, refl)
at_cases (x ∷ xs) (suc i) = at_cases xs i

module _ {D : Type 0} (e : Machine D) (index : ℕ) where
  abbrev open_still : MonitorServer D → Outcome (Bool × MonitorServer D)
  open_still t = returned (true, t)

  read_all_filled :
      (a pending : Bytes) (s : MonitorServer D) (client : ClientConnection)
      → at s.clients index ≡ returned client
      → read_all e index pending (with_buffer e index a s) ≡ read_all e index pending s
  read_all_filled a pending s client there =
      run_lines_again e index a (rest [] pending) (lines [] pending) s client there

  -- A read takes the complete lines of the buffer and the chunk, and keeps what is left.
  pub read_client_lem :
      (c : ℕ) (chunk : Bytes) (s : MonitorServer D) (client : ClientConnection)
      → at s.clients index ≡ returned client
      → read_client e index (c ∷ chunk) s
        ≡ (read_all e index (client.buffer ++ c ∷ chunk) s >>= open_still)
  unfolding read_client set_buffer
  read_client_lem c chunk s client there =
      let pending = client.buffer ++ c ∷ chunk in
      rw (there, set-eq-rebuffer s.clients index pending client there)
        (ap (λ m. m >>= open_still)
          (read_lines_lem e (suc (length pending)) index (with_buffer e index pending s)
              (record client { buffer = pending })
              (at-rebuffer s.clients index pending client there) (omega arith)
            ∙ read_all_filled pending pending s client there))

  -- The second chunk, in a state in which the lines of the first one were handled.
  second_chunk :
      (first : Bytes) (d : ℕ) (b : Bytes) (t : MonitorServer D) (after : ClientConnection)
      → at t.clients index ≡ returned after
      → read_client e index (d ∷ b) (with_buffer e index (rest [] first) t) ≡ (
          (run_lines e index (lines (rest [] first) (d ∷ b)) t >>= λ u.
          returned (with_buffer e index (rest [] (first ++ d ∷ b)) u))
          >>= open_still)
  second_chunk first d b t after there =
      let kept = rest [] first in
      let clean = rest-Lacks first [] tt in
      read_client_lem d b (with_buffer e index kept t) (record after { buffer = kept })
        (at-rebuffer t.clients index kept after there)
      ∙ ap (λ m. m >>= open_still)
          (read_all_filled kept (kept ++ d ∷ b) t after there
            ∙ rw (
              lines_prefix kept (d ∷ b) [] clean,
              rest_prefix kept (d ∷ b) [] clean,
              rest-append first (d ∷ b) [],
            ))

  split_read :
      (first : Bytes) (d : ℕ) (b : Bytes) (s : MonitorServer D) (client : ClientConnection)
      → at s.clients index ≡ returned client
      → (read_all e index (first ++ d ∷ b) s >>= open_still)
        ≡ ((read_all e index first s >>= open_still) >>= λ r. read_client e index (d ∷ b) r.1)
  split_read first d b s client there =
      let ls = lines [] first in
      let ms = lines (rest [] first) (d ∷ b) in
      let keep = λ (t : MonitorServer D). returned (with_buffer e index (rest [] first) t) in
      let keep' =
        λ (u : MonitorServer D). returned (with_buffer e index (rest [] (first ++ d ∷ b)) u) in
      let again = λ (r : Bool × MonitorServer D). read_client e index (d ∷ b) r.1 in
      let m = run_lines e index ls s in
      ap (λ x. (run_lines e index x s >>= keep') >>= open_still) (lines-append first (d ∷ b) [])
      ∙ ap (λ x. (x >>= keep') >>= open_still) (run_lines-append e index ls ms s)
      ∙ ap (λ x. x >>= open_still) (bind_assoc m (run_lines e index ms) keep')
      ∙ bind_assoc m (λ t. run_lines e index ms t >>= keep') open_still
      ∙ bind_cong m _ _ (λ t ran.
        let (after, still) = run_lines-at e index ls s t client there ran in
        sym (second_chunk first d b t after still))
      ∙ sym (bind_assoc m keep (λ t. open_still t >>= again))
      ∙ sym (bind_assoc (m >>= keep) open_still again)

  -- Two chunks that arrive one after the other are handled as one chunk with the bytes of both.
  pub read_client-append :
      (c d : ℕ) (a b : Bytes) (s : MonitorServer D)
      → read_client e index ((c ∷ a) ++ d ∷ b) s
        ≡ (read_client e index (c ∷ a) s >>= λ r. read_client e index (d ∷ b) r.1)
  read_client-append c d a b s = elim (at_cases s.clients index) [
    | inl missing ↦ unfold read_client in rw missing
    | inr (client, there) ↦
        read_client_lem c (a ++ d ∷ b) s client there
        ∙ ap (λ x. read_all e index x s >>= open_still)
            (sym (append_assoc client.buffer (c ∷ a) (d ∷ b)))
        ∙ split_read (client.buffer ++ c ∷ a) d b s client there
        ∙ ap (λ m. m >>= λ r. read_client e index (d ∷ b) r.1)
            (sym (read_client_lem c a s client there))
  ]

  -- After a read that returns, the buffer of the connection holds the bytes behind the last newline.
  pub read_client-buffer :
      (c : ℕ) (chunk : Bytes) (s : MonitorServer D) (client : ClientConnection)
      (result : Bool × MonitorServer D)
      → at s.clients index ≡ returned client
      → read_client e index (c ∷ chunk) s ≡ returned result
      → (after : ClientConnection) × (at result.1.clients index ≡ returned after)
        × (after.buffer ≡ rest [] (client.buffer ++ c ∷ chunk))
        × Lacks newline after.buffer
  read_client-buffer c chunk s client result there h =
      let pending = client.buffer ++ c ∷ chunk in
      let (t, all_read, done) =
        >>=-eq-returned (read_all e index pending s) _
          (sym (read_client_lem c chunk s client there) ∙ h) in
      let (u, ran, set) = >>=-eq-returned (run_lines e index (lines [] pending) s) _ all_read in
      let (after, still) = run_lines-at e index (lines [] pending) s u client there ran in
      let result_eq : result.1 ≡ t = ground arith in
      let stored : at t.clients index ≡ returned (record after { buffer = rest [] pending }) =
        ap (λ (x : MonitorServer D). at x.clients index) (returned_eq e t _ set)
        ∙ at-rebuffer u.clients index (rest [] pending) after still in
      (
        record after { buffer = rest [] pending },
        ap (λ (x : MonitorServer D). at x.clients index) result_eq ∙ stored,
        refl,
        rest-Lacks pending [] tt,
      )
