-- ===== src/Sdo/Results.antt =====
-- The classification of one remote SDO operation (include/canopen_sdo.h).
use canopen_slave_tester.Prelude.{
  ℕ, ◌+◌, ◌%◌, ◌^◌, ◌≡◌, refl, ◌≢◌, ◌⊎◌, inl, inr, Bool-cases, Option-cases, true, Option, none,
  some, arith,
}
use canopen_slave_tester.Lely.{
  timeout, param_val, no_obj, pdo_len, no_write, general_error, other, SdoErrc, errc_eq, ErrorCode,
  Outcome,
}
use canopen_slave_tester.Host.{
  Host, Session, Completion, SdoOperationResult, success, failed, sdo_timeout, wait_timeout,
}
use canopen_slave_tester.Host.Log.{newest_local}
use canopen_slave_tester.Sdo.{value_or, request_result, read_remote_sdo, write_remote_sdo}

-- The four ways in which a request ends, with what they give: its completion carries no error; it is
-- refused; no completion is seen in time; its completion carries an error.
unfoldable pub IsClassified :
    (width : ℕ) → Outcome → Option Completion → (old : ℕ) → SdoOperationResult × ℕ → Type 0
IsClassified width submit completion old r =
    ((c : Completion) × (submit ≡ none)
      × (completion ≡ some c)
      × (c.error ≡ none)
      × (r ≡ (success, c.value % 2 ^ width)))
    ⊎ ((e : ErrorCode) × (submit ≡ some e) × (r ≡ (failed, old)))
    ⊎ ((submit ≡ none) × (completion ≡ none) × (r ≡ (wait_timeout, old)))
    ⊎ ((c : Completion) × (e : ErrorCode) × (submit ≡ none)
        × (completion ≡ some c)
        × (c.error ≡ some e)
        × (((e.sdo_errc ≡ timeout) × (r ≡ (sdo_timeout, old)))
            ⊎ ((e.sdo_errc ≢ timeout) × (r ≡ (failed, old)))))

pub is_timeout : (c : SdoErrc) → errc_eq c timeout ≡ true → c ≡ timeout
is_timeout timeout h = refl
is_timeout param_val h = ground (arith, h)
is_timeout no_obj h = ground (arith, h)
is_timeout pdo_len h = ground (arith, h)
is_timeout no_write h = ground (arith, h)
is_timeout general_error h = ground (arith, h)
is_timeout (other n) h = ground (arith, h)

request_result-IsClassified :
    (width : ℕ) (submit : Outcome) (completion : Option Completion) (old : ℕ)
    → let r = request_result width submit completion in
      IsClassified width submit completion old (r.0, value_or old r.1)
unfolding request_result IsClassified
request_result-IsClassified width none none old = inr (inr (inl (refl, refl, refl)))
request_result-IsClassified width (some e) c old = inr (inl (e, refl, refl))
request_result-IsClassified width none (some c) old = elim (Option-cases c.error) [
  | inl fine ↦ inl (c, refl, refl, fine, ground (arith, fine))
  | inr (e, bad) ↦ inr (
      inr (
        inr (
          c,
          e,
          refl,
          refl,
          bad,
          elim (Bool-cases (errc_eq e.sdo_errc timeout)) [
            | inl late ↦ inl (is_timeout e.sdo_errc late, ground (arith, bad, late))
            | inr early ↦ inr (ground (arith, early), ground (arith, bad, early))
          ],
        )))
]

-- The result of a remote read tells what happened, and the caller's variable is written only with it:
-- SUCCESS and the completion's value if the completion carries no error; FAILED if the request is
-- refused, or if the completion carries an error other than Lely's timeout abort; SDO_TIMEOUT if it
-- carries that one; WAIT_TIMEOUT if an accepted request's completion is not seen in time.
pub read_remote_sdo-IsClassified :
    (h : Host) (s : Session) (width index subindex old t margin : ℕ)
    → IsClassified width
        (h.submit s.step)
        (h.completion s.step (t + margin))
        old
        (read_remote_sdo h width index subindex old t margin s).0
unfolding read_remote_sdo
read_remote_sdo-IsClassified h s width index subindex old t margin =
    request_result-IsClassified width (h.submit s.step) (h.completion s.step (t + margin)) old

-- A remote write is no local one.
pub write_remote_sdo-newest_local :
    (h : Host) (i j index subindex value t margin : ℕ) (s : Session)
    → newest_local i j (write_remote_sdo h index subindex value t margin s).1.log
      ≡ newest_local i j s.log
unfolding write_remote_sdo
write_remote_sdo-newest_local h i j index subindex value t margin s = refl
