-- ===== src/Xhci/Controller/Released.antt =====
-- The table of the ports behind an event of kernel/src/xhci/controller.rs, and behind the end of a
-- connection.
use lemola_osv.Base.{
  ℕ, ◌≡◌, ◌≢◌, ◌∙◌, sym, ap, none, some, ok, set, length, length-set, get_elem?, get_elem?-set_self,
  get_elem?-set_ne, ltb, ltb→lt, arith, Bool-cases, Option-cases, inl, inr,
}
use lemola_osv.Xhci.Port.{not_connected, PortConfigureState, set_port_phase_at}
use lemola_osv.Xhci.Controller.{XhciApi}
use lemola_osv.Xhci.Controller.Table.{Follows, Follows-trans}
use lemola_osv.Xhci.Controller.Events.{Next, finished, disable_slots, release_place}

-- The port has lost its connection.
pub record Released (p : ℕ) (s t : PortConfigureState) : Type 0 where
  pub own : s.addressing_port_index ≡ some p → t.addressing_port_index ≡ none
  pub place : s.addressing_port_index ≢ some p → t.addressing_port_index ≡ s.addressing_port_index
  pub phase : get_elem? t.port_config_phase p ≡ some not_connected
  pub others : (j : ℕ) → p ≢ j → get_elem? t.port_config_phase j ≡ get_elem? s.port_config_phase j
  pub size : length t.port_config_phase ≡ length s.port_config_phase

abbrev pub After : Next → ℕ → PortConfigureState → PortConfigureState → Type 0
After finished = Follows
After disable_slots = Released

place_kept :
    (p : ℕ) (s t u : PortConfigureState)
    → Follows p s t
    → Released p t u
    → s.addressing_port_index ≢ some p
    → u.addressing_port_index ≡ s.addressing_port_index
place_kept p s t u f r ne = elim (Option-cases s.addressing_port_index) [
  | inl free ↦ elim (f.free free) [
    | inl still ↦ r.place (λ e. cc) ∙ still ∙ sym free
    | inr taken ↦ r.own taken ∙ sym free
  ]
  | inr (q, held) ↦
      let same = f.holder q held in r.place (λ e. ne (held ∙ sym same ∙ e)) ∙ same ∙ sym held
]

pub After-trans :
    (next : Next) (p : ℕ) (s t u : PortConfigureState)
    → Follows p s t
    → After next p t u
    → After next p s u
After-trans finished p s t u f g = Follows-trans p s t u f g
After-trans disable_slots p s t u f r = record {
  own = λ e. r.own (f.holder p e);
  place = place_kept p s t u f r;
  phase = r.phase;
  others = λ j ne. r.others j ne ∙ f.others j ne;
  size = r.size ∙ f.size;
}

module _ (X : XhciApi) where
  release_own :
      (p : ℕ) (s : PortConfigureState)
      → s.addressing_port_index ≡ some p
      → (release_place X s p).addressing_port_index ≡ none
  unfolding release_place
  release_own p s e = ground (arith, e)

  release_other :
      (p : ℕ) (s : PortConfigureState)
      → s.addressing_port_index ≢ some p
      → (release_place X s p).addressing_port_index ≡ s.addressing_port_index
  unfolding release_place
  release_other p s ne = elim (Option-cases s.addressing_port_index) [
    | inl free ↦ ground (arith, free)
    | inr (q, held) ↦
        let other : q ≢ p = λ same. ne (held ∙ ap some same) in ground (arith, held, other)
  ]

  release_phases :
      (p : ℕ) (s : PortConfigureState)
      → (release_place X s p).port_config_phase ≡ s.port_config_phase
  unfolding release_place
  release_phases p s = ground arith

  -- The table with the place released and the port's phase reset.
  pub release-Released :
      (p : ℕ) (s t : PortConfigureState)
      → set_port_phase_at (release_place X s p) p not_connected ≡ ok t
      → Released p s t
  unfolding set_port_phase_at
  release-Released p s t run =
      let u = release_place X s p in
      let phases = release_phases p s in
      elim (Bool-cases (ltb p (length u.port_config_phase))) [
        | inl inside ↦
            let at : ok (record u { port_config_phase = set u.port_config_phase p not_connected })
                ≡ ok t =
              rw inside at run in
            let e : record u { port_config_phase = set u.port_config_phase p not_connected } ≡ t =
              cc in
            rw (sym e) (record {
              own = release_own p s;
              place = release_other p s;
              phase = get_elem?-set_self u.port_config_phase p not_connected (ltb→lt _ _ inside);
              others = λ j ne.
                  get_elem?-set_ne u.port_config_phase p j not_connected ne
                  ∙ ap (λ l. get_elem? l j) phases;
              size = length-set u.port_config_phase p not_connected ∙ ap length phases;
            })
        | inr outside ↦ absurd (ground (arith, outside, run))
      ]
