-- ===== src/Witness/Numbers.antt =====
-- Whole numbers in the place of floats, for runs of the code that computes with floats.
use nexus_core_devops_engine.Base.{ℕ, ◌+◌, ◌-◌, ◌*◌, ◌/◌, min, max, leb}
use nexus_core_devops_engine.Base.Float.{Float}

abbrev pub whole_numbers : Float
whole_numbers = record {
  F = ℕ;
  of_u64 = λ n. n;
  ratio = λ a b. a / b;
  fadd = λ a b. a + b;
  fsub = λ a b. a - b;
  fmul = λ a b. a * b;
  fdiv = λ a b. a / b;
  fmin = λ a b. min a b;
  fmax = λ a b. max a b;
  fle = λ a b. leb a b;
  to_u64 = λ n. n;
}
