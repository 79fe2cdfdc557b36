-- ===== src/Format.antt =====
-- How Python and the standard library write a value into a text, where the services build a text
-- of it: an idempotency key, an error message, a task parameter. They are parameters of the model.
use lance_laker.Base.{ℕ, String}
use lance_laker.Outcome.{Error}

pub record Format : Type 0 where
  -- `str` of an integer, `isoformat` of a time, and the message of an exception
  pub str_int : ℕ → String
  pub isoformat : ℕ → String
  pub str_exc : Error → String
  -- minutes, from milliseconds, rounded to three digits
  pub round_minutes : ℕ → String
