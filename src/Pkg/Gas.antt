-- ===== src/Pkg/Gas.antt =====
-- ExecuteWithGasLimit (pkg/utils.go): a call on a branch of the state, under a gas limit of its own.
use archway.Common.{ℕ, Option, none, some, Result, ok, panic, ◌>>=◌, or_panic}

-- How a call ends, with the gas that its meter counted. A panic for want of gas is told from others.
pub data Run (E S : Type 0) : Type 0 where
  finished : ℕ → S → Run E S
  failed : ℕ → E → Run E S
  out_of_gas : ℕ → Run E S
  panicked : Run E S

-- The gas used and the error, if there was one, as the Go function returns them.
pub record Outcome (E : Type 0) : Type 0 where
  pub gas_used : ℕ
  pub error : Option E

module _ {E F S : Type 0} (err_out_of_gas : E) (consume_gas : S → ℕ → Option S) where
  -- The state is that of the caller, save for a call that ends well; the caller's meter is charged.
  unfoldable pub conclude : Run E S → S → Result F (Outcome E × S)
  conclude (finished g s') s =
      or_panic (consume_gas s' g) >>= λ c. ok (record { gas_used = g; error = none }, c)
  conclude (failed g e) s =
      or_panic (consume_gas s g) >>= λ c. ok (record { gas_used = g; error = some e }, c)
  conclude (out_of_gas g) s = or_panic (consume_gas s g) >>= λ c.
      ok (record { gas_used = g; error = some err_out_of_gas }, c)
  conclude panicked s = panic

  unfoldable pub execute_with_gas_limit : S → ℕ → (ℕ → S → Run E S) → Result F (Outcome E × S)
  unfolding conclude
  execute_with_gas_limit s gas_limit f = conclude (f gas_limit s) s
