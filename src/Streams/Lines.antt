-- ===== src/Streams/Lines.antt =====
-- Lines and parts of lines that were put together, taken apart again.
use sys_net_mon.Base.{ℕ, some, [], ◌∷◌, ◌++◌, Bytes, ◌≡◌, refl, arith, Lacks}
use sys_net_mon.Text.{newline}
use sys_net_mon.Streams.{text_lines, cut_at}

-- A line without a newline is taken off the text whole.
pub text_lines-line :
    (line s : Bytes) → Lacks newline line → text_lines (line ++ newline ∷ s) ≡ line ∷ text_lines s
unfolding text_lines
text_lines-line [] s lacks = refl
text_lines-line (c ∷ line) s (hc, lacks) = rw (text_lines-line line s lacks) (ground arith)

pub cut_at-append :
    (mark : ℕ) (a b : Bytes) → Lacks mark a → cut_at mark (a ++ mark ∷ b) ≡ some (a, b)
unfolding cut_at
cut_at-append mark [] b lacks = ground arith
cut_at-append mark (c ∷ a) b (hc, lacks) = rw (cut_at-append mark a b lacks) (ground arith)
