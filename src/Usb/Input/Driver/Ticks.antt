-- ===== src/Usb/Input/Driver/Ticks.antt =====
-- What `tick` of kernel/src/usb/class_driver.rs does to the devices, however the host answers.
use Prim.Native.String.{String}
use lemola_osv.Base.{ℕ, ◌≡◌, refl, subst, List, [], ◌∷◌, Option, none, some, Run, ok, panic}
use lemola_osv.Usb.Host.{TransferError, DriverError, UsbApi, Host, Outcome, done, fails, panics}
use lemola_osv.Usb.Host.Ends.{Ends}
use lemola_osv.Usb.Input.{InputOnlyDevice, Limits, World, fsm}
use lemola_osv.Usb.Input.Stepped.{Follows, IsReady, Stepped, Refused}
use lemola_osv.Usb.Input.Follows.{fsm-Stepped}
use lemola_osv.Usb.Input.Driver.{InputOnlyDriver, Ticked, behind, after_fsm, tick_slots, tick}

abbrev pub Slots : Type 0
Slots = List (Option InputOnlyDevice)

abbrev pub AllReady : Slots → Type 0
AllReady [] = Unit {0}
AllReady (none ∷ slots) = AllReady slots
AllReady (some d ∷ slots) = IsReady d × AllReady slots

-- The slots before and after, and the error: each device has taken a step or waits for another try, up
-- to the first that fails for good.
pub data Polled : Slots → Slots → Option DriverError → Type 0 where
  end : Polled [] [] none
  free :
      {slots slots' : Slots} {e : Option DriverError}
      → Polled slots slots' e
      → Polled (none ∷ slots) (none ∷ slots') e
  moves :
      {d d' : InputOnlyDevice} {slots slots' : Slots} {e : Option DriverError}
      → Follows d.state d'.state
      → d'.addr ≡ d.addr
      → Polled slots slots' e
      → Polled (some d ∷ slots) (some d' ∷ slots') e
  retries :
      {d d' : InputOnlyDevice} {slots slots' : Slots} {e : Option DriverError}
      → d'.state ≡ d.state
      → d'.addr ≡ d.addr
      → Polled slots slots' e
      → Polled (some d ∷ slots) (some d' ∷ slots') e
  stops :
      {d d' : InputOnlyDevice} {slots : Slots} {msg : String}
      → d'.state ≡ d.state
      → d'.addr ≡ d.addr
      → Polled (some d ∷ slots) (some d' ∷ slots) (some (DriverError.permanent d'.addr msg))

module _ (U : UsbApi) (H : Host) (L : Limits) where
  abbrev Tells : Slots → Ticked U H L → Type 0
  Tells slots t = Polled slots t.devices t.error × AllReady t.devices

  Tells-behind :
      (slot : Option InputOnlyDevice) (slots slots0 : Slots) (r : Run (Ticked U H L))
      (t : Ticked U H L)
      → behind U H L slot r ≡ ok t
      → ((t : Ticked U H L) → r ≡ ok t → Tells slots t)
      → ((t : Ticked U H L)
          → Tells slots t
          → Tells slots0 (record t { devices = slot ∷ t.devices }))
      → Tells slots0 t
  Tells-behind slot slots slots0 (ok t') t e rest more =
      let same : record t' { devices = slot ∷ t'.devices } ≡ t = cc in
      subst (Tells slots0) same (more t' (rest t' refl))
  Tells-behind slot slots slots0 panic t e rest more = cc

  -- The rest of the loop after the call of `fsm` for a device, which ended so.
  after_fsm-Tells :
      (slots : Slots) (w : World H) (next : H.State → List (ℕ × List ℕ) → Run (Ticked U H L))
      (o : Outcome (World H) (Unit {0})) (t : Ticked U H L)
      → Ends (λ u. Stepped H w w.device.state) (Refused H w w.device.state) o
      → AllReady slots
      → ((host : H.State) (calls : List (ℕ × List ℕ)) (t' : Ticked U H L)
          → next host calls ≡ ok t'
          → Tells slots t')
      → after_fsm U H L slots next o ≡ ok t
      → Tells (some w.device ∷ slots) t
  unfolding after_fsm
  after_fsm-Tells slots w next (done u w') t h all rest e =
      Tells-behind (some w'.device) slots (some w.device ∷ slots) (next w'.host w'.calls) t e
        (rest w'.host w'.calls) (λ t' k. (moves h.follows h.addr k.0, (h.ready, k.1)))
  after_fsm-Tells slots w next (fails (TransferError.retry msg) w') t h all rest e =
      Tells-behind (some w'.device) slots (some w.device ∷ slots) (next w'.host w'.calls) t e
        (rest w'.host w'.calls) (λ t' k. (retries h.state h.addr k.0, (h.ready, k.1)))
  after_fsm-Tells slots w next (fails (TransferError.permanent msg) w') t h all rest e =
      let stopped : Ticked U H L = record {
        error = some (DriverError.permanent w'.device.addr msg);
        devices = some w'.device ∷ slots;
        host = w'.host;
        calls = w'.calls;
      } in
      let same : stopped ≡ t = cc in
      subst (Tells (some w.device ∷ slots)) same (stops h.state h.addr, (h.ready, all))
  after_fsm-Tells slots w next panics t h all rest e = cc

  tick_slots-Tells :
      (millis : ℕ) (slots : Slots) (host : H.State) (calls : List (ℕ × List ℕ)) (t : Ticked U H L)
      → AllReady slots
      → tick_slots U H L millis slots host calls ≡ ok t
      → Tells slots t
  unfolding tick_slots
  tick_slots-Tells millis [] host calls t all e =
      let ended : Ticked U H L = record {
        error = none;
        devices = [];
        host = host;
        calls = calls;
      } in
      let same : ended ≡ t = cc in subst (Tells []) same (Polled.end, tt)
  tick_slots-Tells millis (none ∷ slots) host calls t all e =
      Tells-behind none slots (none ∷ slots) (tick_slots U H L millis slots host calls) t e
        (λ t'. tick_slots-Tells millis slots host calls t' all) (λ t' h. (Polled.free h.0, h.1))
  tick_slots-Tells millis (some d ∷ slots) host calls t (ready, all) e =
      let w : World H = record { device = d; host = host; calls = calls } in
      after_fsm-Tells slots w (λ host calls. tick_slots U H L millis slots host calls)
        (fsm U H L millis w) t (fsm-Stepped H U L millis w ready) all
        (λ host calls t'. tick_slots-Tells millis slots host calls t' all) e

  -- In a tick that does not panic each device takes a step or keeps its state for another try, in
  -- order, up to the first that fails for good: it keeps its state, its address is in the error,
  -- and the devices behind it are as before. The endpoints that are needed are there afterwards,
  -- if they were before.
  pub tick-Polled :
      (millis : ℕ) (driver : InputOnlyDriver) (host : H.State) (calls : List (ℕ × List ℕ))
      (t : Ticked U H L)
      → AllReady driver.devices
      → tick U H L millis driver host calls ≡ ok t
      → Polled driver.devices t.devices t.error × AllReady t.devices
  unfolding tick
  tick-Polled millis driver host calls t all e =
      tick_slots-Tells millis driver.devices host calls t all e
