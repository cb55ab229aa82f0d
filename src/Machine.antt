-- ===== src/Machine.antt =====
-- What the program takes from the C++ runtime and the system: `double`, the clock and `gmtime`.
-- Nothing here is code of the program: a `Machine` is a parameter of the definitions that use it.
use sys_net_mon.Base.{ℕ, ℤ, Bool, Bytes, Outcome}

-- `std::tm` as `gmtime` fills it, with `year` and `month` as `put_time` prints them.
pub record Tm : Type 0 where
  pub year : ℕ
  pub month : ℕ
  pub day : ℕ
  pub hour : ℕ
  pub minute : ℕ
  pub second : ℕ

-- `D` is `double`.
pub record Machine (D : Type 0) : Type 0 where
  -- 0.0
  pub zero_double : D
  -- `>` and `<`
  pub greater : D → D → Bool
  pub less : D → D → Bool
  -- `*`, `/`, and the cast of an integer
  pub times : D → D → D
  pub divided_by : D → D → D
  pub of_integer : ℤ → D
  -- `std::stod`
  pub stod : Bytes → Outcome D
  -- `out << std::fixed << std::setprecision(precision) << value`
  pub fixed : ℕ → D → Bytes
  -- the n-th reading of `system_clock::now`, as `gmtime` breaks it down
  pub utc_time : ℕ → Tm
