-- ===== src/Usb/Input/Starts.antt =====
-- A device whose host answers comes to run: kernel/src/usb/class_driver.rs.
use lemola_osv.Base.{ℕ, ◌+◌, ◌<◌, ◌≡◌, refl, List, [], ◌∷◌, word, length}
use lemola_osv.Usb.Host.{UsbApi, Host, Outcome, done, Step, ◌>>=◌, ◌>>◌, pure}
use lemola_osv.Usb.Host.Ends.{Ends}
use lemola_osv.Usb.Input.Stepped.{IsReady, Stepped, Refused}
use lemola_osv.Usb.Input.Follows.{fsm-Stepped}
use lemola_osv.Usb.Input.{addressed, running, Limits, World, fsm}
use lemola_osv.Usb.Input.Reaches.{
  IsAnswering, Finds, Reaches-wait_for_settle, Reaches-get_config, Reaches-set_config,
  Reaches-set_protocol, Reaches-set_idle, Reaches-running,
}

module _ (U : UsbApi) (H : Host) (L : Limits) (total : ℕ) (h : IsAnswering U H L total) where
  -- Calls of `fsm` at these times.
  pub fsm_at : List ℕ → Step (World H) (Unit {0})
  fsm_at [] = pure tt
  fsm_at (m ∷ ms) = fsm U H L m >> fsm_at ms

  calls_step :
      (m : ℕ) (ms : List ℕ) (w : World H) {w' : World H} {o : Outcome (World H) (Unit {0})}
      → fsm U H L m w ≡ done tt w'
      → fsm_at ms w' ≡ o
      → fsm_at (m ∷ ms) w ≡ o
  unfolding fsm_at
  calls_step m ms w e rest = rw (e, ◌>>◌, ◌>>=◌) rest

  IsReady-fsm :
      (m : ℕ) (w w' : World H) → fsm U H L m w ≡ done tt w' → IsReady w.device → IsReady w'.device
  IsReady-fsm m w w' e ready =
      let stepped : Ends (λ u. Stepped H w w.device.state) (Refused H w w.device.state)
          (done tt w') =
        rw e at (fsm-Stepped H U L m w ready) in
      stepped.ready

  -- A new device runs after six calls of `fsm` and has its endpoint, if the host answers every
  -- request, the configuration fits into the buffer and holds an endpoint that the searcher finds,
  -- and the second call comes when the delay is over.
  pub fsm-starts :
      (w : World H) (m0 m1 m2 m3 m4 m5 : ℕ)
      → w.device.state ≡ addressed
      → Finds U H total w.device.endpoint_searcher
      → 0 < length w.device.endpoints
      → m0 + L.settle_delay < word
      → m0 + L.settle_delay < m1
      → (w' : World H) × (fsm_at (m0 ∷ m1 ∷ m2 ∷ m3 ∷ m4 ∷ m5 ∷ []) w ≡ done tt w')
        × (w'.device.state ≡ running)
        × IsReady w'.device
  unfolding fsm_at
  fsm-starts w m0 m1 m2 m3 m4 m5 at finds room small over =
      let r0 = Reaches-wait_for_settle U H L total h m0 w at small in
      let r1 = Reaches-get_config U H L total h m1 (m0 + L.settle_delay) r0.after r0.state over in
      let r2 =
        Reaches-set_config U H L total h m2 r1.after r1.state (rw (r1.searcher, r0.searcher) finds)
          (r1.room (r0.room room)) in
      let ready2 = IsReady-fsm m2 r1.after r2.after r2.ends (λ t. cc (r1.state, t)) in
      let r3 = Reaches-set_protocol U H L total h m3 1 r2.after r2.state in
      let ready3 = IsReady-fsm m3 r2.after r3.after r3.ends ready2 in
      let (ep, there) = ready3 (rw r3.state refl) in
      let r4 = Reaches-set_idle U H L total h m4 r3.after ep r3.state there in
      let ready4 = IsReady-fsm m4 r3.after r4.after r4.ends ready3 in
      let r5 = Reaches-running U H L total h m5 r4.after r4.state in
      (
        r5.after,
        calls_step m0 (m1 ∷ m2 ∷ m3 ∷ m4 ∷ m5 ∷ []) w r0.ends (
            calls_step m1 (m2 ∷ m3 ∷ m4 ∷ m5 ∷ []) r0.after r1.ends (
              calls_step m2 (m3 ∷ m4 ∷ m5 ∷ []) r1.after r2.ends (
                calls_step m3 (m4 ∷ m5 ∷ []) r2.after r3.ends (
                  calls_step m4 (m5 ∷ []) r3.after r4.ends
                    (calls_step m5 [] r4.after r5.ends refl))))),
        r5.state,
        IsReady-fsm m5 r4.after r5.after r5.ends ready4,
      )
