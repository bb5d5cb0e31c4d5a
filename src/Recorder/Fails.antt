-- ===== src/Recorder/Fails.antt =====
-- The count of failed writes, `write_fails` of examples/9_multi/main.c, round by round.
use stm32_async_1wire.Prelude.{ℕ, ◌+◌, ◌≤◌, ◌⊎◌, true, ◌≡◌}
use stm32_async_1wire.Wire.{u8}
use stm32_async_1wire.Recorder.{Recorder, waiting, write_readback}
use stm32_async_1wire.Recorder.Valid.{is_writing}

module _ {D : Type 0} where
  -- A write has failed: it is counted, the queue is dropped, and at the third writing goes off.
  pub record IsFailed (before : ℕ) (r : Recorder D) : Type 0 where
    pub counted : r.write_fails ≡ u8 (before + 1)
    pub rests : r.state ≡ waiting
    pub emptied : r.job_n ≡ 0
    pub gives_up : 3 ≤ r.write_fails → r.persist_off ≡ true

  -- The write under way goes on, or none was: the count stays.
  pub record IsUncounted (r r' : Recorder D) : Type 0 where
    pub count_same : r'.write_fails ≡ r.write_fails
    pub goes_on : is_writing r.state ≡ true → is_writing r'.state ≡ true
    pub job_same : is_writing r.state ≡ true → r'.job_i ≡ r.job_i

  -- A write has been read back: the count is 0, but for the next write, which may fail at once.
  pub record IsFinished (r r' : Recorder D) : Type 0 where
    pub at_end : r.state ≡ write_readback
    pub count_is : (r'.write_fails ≡ 0) ⊎ IsFailed 0 r'

  abbrev pub IsCounted : Recorder D → Recorder D → Type 0
  IsCounted r r' = IsUncounted r r' ⊎ (IsFailed r.write_fails r' ⊎ IsFinished r r')

  -- The count stays, or a write fails.
  abbrev IsTried : ℕ → Recorder D → Type 0
  IsTried n r = (r.write_fails ≡ n) ⊎ IsFailed n r
