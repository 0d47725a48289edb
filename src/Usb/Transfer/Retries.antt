-- ===== src/Usb/Transfer/Retries.antt =====
-- The rounds of `request_descriptor`, kernel/src/usb/device.rs.
use lemola_osv.Base.{ℕ, zero, suc, ◌+◌, ◌≤◌, ◌≡◌, refl, Run, ok, panic, lt→ltb, le→ltb, arith}
use lemola_osv.Usb.Host.{TransferError, Reply, success, failure}
use lemola_osv.Usb.Transfer.{again, request_from, request_descriptor}

module _ {St : Type 0} (attempt : St → Run (Reply ℕ × St)) where
  -- So many transfers in a row that fail.
  pub data Failures : ℕ → St → St → Type 0 where
    none_yet : {s : St} → Failures zero s s
    one_more :
        {n : ℕ} {s s' s'' : St} {e : TransferError}
        → attempt s ≡ ok (failure e, s')
        → Failures n s' s''
        → Failures (suc n) s s''

  request_from_lem :
      (n fuel count : ℕ) {s s' s'' : St} {length : ℕ}
      → n + count ≤ 100
      → suc n ≤ fuel
      → Failures n s s'
      → attempt s' ≡ ok (success length, s'')
      → request_from attempt fuel count s ≡ ok (length, s'')
  unfolding request_from again
  request_from_lem zero (suc fuel) count h enough none_yet e = rw e refl
  request_from_lem (suc n) (suc fuel) count h enough (one_more e more) last =
      rw (e, le→ltb 100 (count + 1) (omega arith))
        (request_from_lem n fuel (count + 1) (omega arith) (omega arith) more last)
  request_from_lem n zero count h enough fs last = absurd (omega arith)

  gives_up :
      (n fuel count : ℕ) {s s' : St}
      → n + count ≡ 100
      → suc n ≤ fuel
      → Failures (suc n) s s'
      → request_from attempt fuel count s ≡ panic
  unfolding request_from again
  gives_up zero (suc fuel) count h enough (one_more e none_yet) =
      rw (e, lt→ltb 100 (count + 1) (omega arith)) refl
  gives_up (suc n) (suc fuel) count h enough (one_more e more) =
      rw (e, le→ltb 100 (count + 1) (omega arith))
        (gives_up n fuel (count + 1) (omega arith) (omega arith) more)
  gives_up n zero count h enough fs = absurd (omega arith)

  -- After at most 100 transfers that fail, `request_descriptor` gives what the first that succeeds gives;
  -- if 101 transfers in a row fail, it panics.
  pub request_descriptor_lem :
      (s s' : St)
      → ((n length : ℕ) (s'' : St)
          → n ≤ 100
          → Failures n s s'
          → attempt s' ≡ ok (success length, s'')
          → request_descriptor attempt s ≡ ok (length, s''))
        × (Failures 101 s s' → request_descriptor attempt s ≡ panic)
  unfolding request_descriptor
  request_descriptor_lem s s' = (
    (λ n length s'' h fs last. request_from_lem n 128 0 (omega arith) (omega arith) fs last),
    (λ fs. gives_up 100 128 0 refl (omega arith) fs),
  )
