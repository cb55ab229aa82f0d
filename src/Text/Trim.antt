-- ===== src/Text/Trim.antt =====
-- cpp/include/common.hpp: what `trim` returns.
use mathlib.Core.List.{reverse-append, reverse-reverse}
use sys_net_mon.Base.{
  true, [], ◌∷◌, ◌++◌, reverse, append-nil, Bytes, ◌≡◌, sym, ap, subst, ◌∙◌, take_while, drop_while,
  Stops, Each, All-reverse, take_while-append-drop_while, drop_while_exact, drop_while-append,
  drop_while-Stops, drop_while_all, Stops-append_left,
}
use sys_net_mon.Text.{is_space, drop_spaces, trim}

-- The string neither starts nor ends with a space.
pub record IsTrimmed (s : Bytes) : Type 0 where
  pub starts : Stops is_space s
  pub ends : Stops is_space (reverse s)

-- A string with spaces around a part that neither starts nor ends with one is trimmed to this part.
pub trim_unique :
    (a core b : Bytes)
    → Each is_space a
    → Each is_space b
    → IsTrimmed core
    → trim (a ++ (core ++ b)) ≡ core
unfolding trim drop_while
trim_unique a [] b ha hb h = rw (drop_while-append is_space a b ha, drop_while_all is_space b hb)
trim_unique a (c ∷ core) b ha hb h =
    rw
      (
        drop_while_exact is_space a ((c ∷ core) ++ b) ha h.starts,
        reverse-append (c ∷ core) b,
        drop_while_exact is_space (reverse b) (reverse (c ∷ core))
            (All-reverse (λ x. is_space x ≡ true) b hb) h.ends,
      )
      (reverse-reverse (c ∷ core))

-- what the second search cuts off the end
cut : Bytes → Bytes
cut s = reverse (take_while is_space (reverse (drop_spaces s)))

drop_spaces-trim : (s : Bytes) → drop_spaces s ≡ trim s ++ cut s
unfolding trim cut
drop_spaces-trim s =
    let t = drop_spaces s in
    sym (reverse-reverse t)
    ∙ ap reverse (sym (take_while-append-drop_while is_space (reverse t)))
    ∙ reverse-append (take_while is_space (reverse t)) (drop_spaces (reverse t))

pub IsTrimmed-trim : (s : Bytes) → IsTrimmed (trim s)
IsTrimmed-trim s = record {
  starts =
      Stops-append_left is_space (trim s) (cut s)
        (subst (Stops is_space) (drop_spaces-trim s) (drop_while-Stops is_space s));
  ends =
      unfold trim in
      rw (reverse-reverse (drop_spaces (reverse (drop_spaces s))))
        (drop_while-Stops is_space (reverse (drop_spaces s)));
}

pub trim-trim : (s : Bytes) → trim (trim s) ≡ trim s
trim-trim s = rw (append-nil (trim s)) at (trim_unique [] (trim s) [] tt tt (IsTrimmed-trim s))
