-- ===== src/Server/Stream.antt =====
-- cpp/server/main.cpp: `read_client` on lines that arrive in chunks.
use sys_net_mon.Base.{
  ℕ, false, List, [], ◌∷◌, ◌++◌, append-nil, Bytes, ◌≡◌, ◌≢◌, refl, ap, sym, ◌∙◌, Outcome, returned,
  ◌>>=◌, bind_assoc, bind_cong, at, All, Lacks,
}
use sys_net_mon.Machine.{Machine}
use sys_net_mon.Text.{newline, trim}
use sys_net_mon.Server.{ClientConnection, MonitorServer}
use sys_net_mon.Server.Lines.{is_empty, take_line, handle_line, read_client}
use sys_net_mon.Server.Framing.{lines, rest, lines_prefix, rest_prefix}
use sys_net_mon.Server.Buffers.{with_buffer}
use sys_net_mon.Server.Reading.{run_lines}
use sys_net_mon.Server.Chunks.{read_client_lem, read_client-append}

-- the lines, each with its newline
abbrev pub written_lines : List Bytes → Bytes
written_lines [] = []
written_lines (l ∷ ls) = l ++ newline ∷ written_lines ls

-- a line that `read_client` hands on as it is
pub record IsLine (l : Bytes) : Type 0 where
  pub one_line : Lacks newline l
  pub trimmed : trim l ≡ l
  pub some_byte : l ≢ []

lines-written : (ls : List Bytes) → All IsLine ls → lines [] (written_lines ls) ≡ ls
unfolding lines
lines-written [] h = refl
lines-written (l ∷ ls) (hl, h) =
    lines_prefix l (newline ∷ written_lines ls) [] hl.one_line
    ∙ ap (λ x. l ∷ x) (lines-written ls h)

rest-written : (ls : List Bytes) → All IsLine ls → rest [] (written_lines ls) ≡ []
unfolding rest
rest-written [] h = refl
rest-written (l ∷ ls) (hl, h) =
    rest_prefix l (newline ∷ written_lines ls) [] hl.one_line ∙ rest-written ls h

-- chunks, of which none is empty: the first byte of each, and the others
abbrev pub joined : List (ℕ × Bytes) → Bytes
joined [] = []
joined ((c, a) ∷ chunks) = (c ∷ a) ++ joined chunks

not-empty : (l : Bytes) → l ≢ [] → is_empty l ≡ false
unfolding is_empty
not-empty [] h = absurd (h refl)
not-empty (c ∷ l) h = refl

module _ {D : Type 0} (e : Machine D) (index : ℕ) where
  -- `handle_line` for one line after the other
  abbrev pub handle_lines : List Bytes → MonitorServer D → Outcome (MonitorServer D)
  handle_lines [] s = returned s
  handle_lines (l ∷ ls) s = handle_line e index l s >>= handle_lines ls

  -- `read_client` for one chunk after the other
  abbrev pub read_chunks : List (ℕ × Bytes) → MonitorServer D → Outcome (MonitorServer D)
  read_chunks [] s = returned s
  read_chunks ((c, a) ∷ chunks) s = read_client e index (c ∷ a) s >>= λ r. read_chunks chunks r.1

  run_lines-handle_lines :
      (ls : List Bytes) (s : MonitorServer D)
      → All IsLine ls
      → run_lines e index ls s ≡ handle_lines ls s
  unfolding run_lines take_line
  run_lines-handle_lines [] s h = refl
  run_lines-handle_lines (l ∷ ls) s (hl, h) =
      rw (hl.trimmed, not-empty l hl.some_byte)
        (bind_cong (handle_line e index l s) _ _ (λ t _. run_lines-handle_lines ls t h))

  -- All chunks at once are read as the chunks one by one.
  read_chunks-joined :
      (c : ℕ) (a : Bytes) (chunks : List (ℕ × Bytes)) (s : MonitorServer D)
      → read_chunks ((c, a) ∷ chunks) s
        ≡ (read_client e index (joined ((c, a) ∷ chunks)) s >>= λ r. returned r.1)
  read_chunks-joined c a [] s = rw (append-nil a) refl
  read_chunks-joined c a ((d, b) ∷ chunks) s =
      bind_cong (read_client e index (c ∷ a) s) _ _ (λ r _. read_chunks-joined d b chunks r.1)
      ∙ sym (bind_assoc (read_client e index (c ∷ a) s) _ _)
      ∙ ap (λ m. m >>= λ r. returned r.1)
          (sym (read_client-append e index c d a (b ++ joined chunks) s))

  -- If the chunks of a connection hold trimmed lines that are not empty, each with its newline, then
  -- `read_client` handles just these lines, one after the other, however the bytes are cut, and
  -- leaves the buffer empty.
  pub read_chunks-written_lines :
      (c : ℕ) (a : Bytes) (chunks : List (ℕ × Bytes)) (ls : List Bytes) (s : MonitorServer D)
      (client : ClientConnection)
      → at s.clients index ≡ returned client
      → client.buffer ≡ []
      → All IsLine ls
      → joined ((c, a) ∷ chunks) ≡ written_lines ls
      → read_chunks ((c, a) ∷ chunks) s
        ≡ (handle_lines ls s >>= λ t. returned (with_buffer e index [] t))
  read_chunks-written_lines c a chunks ls s client there empty h whole =
      read_chunks-joined c a chunks s
      ∙ ap (λ m. m >>= λ r. returned r.1)
          (read_client_lem e index c (a ++ joined chunks) s client there)
      ∙ rw (empty, whole, lines-written ls h, rest-written ls h, run_lines-handle_lines ls s h)
          (bind_assoc (handle_lines ls s >>= λ t. returned (with_buffer e index [] t)) _ _
            ∙ bind_assoc (handle_lines ls s) _ _)
