-- ===== src/Xhci/Controller/Table.antt =====
-- The table of the ports in kernel/src/xhci: what a call for one port may do to it.
use lemola_osv.Base.{
  ℕ, ◌≡◌, ◌≢◌, ◌⊎◌, inl, inr, ◌∙◌, refl, sym, ap, none, some, Run, ok, panic, Bool, true, false,
  ltb, if◌then◌else◌, set, length, length-set, get_elem?, get_elem?-set_ne, arith, Bool-cases,
  Run-cases, ◌==◌,
}
use lemola_osv.Xhci.Port.{PortConfigPhase, waiting_addressed, PortConfigureState, set_port_phase_at}

-- What a call for one port does to the table: the place of a port that has it stays its own, a free
-- place goes to no other port, and no other port's phase changes.
pub record Follows (port_idx : ℕ) (s t : PortConfigureState) : Type 0 where
  pub holder : (q : ℕ) → s.addressing_port_index ≡ some q → t.addressing_port_index ≡ some q
  pub free :
      s.addressing_port_index ≡ none
      → (t.addressing_port_index ≡ none) ⊎ (t.addressing_port_index ≡ some port_idx)
  pub others :
      (j : ℕ) → port_idx ≢ j → get_elem? t.port_config_phase j ≡ get_elem? s.port_config_phase j
  pub size : length t.port_config_phase ≡ length s.port_config_phase

pub Follows-refl : (p : ℕ) (s : PortConfigureState) → Follows p s s
Follows-refl p s = record {
  holder = λ q e. e;
  free = λ e. inl e;
  others = λ j ne. refl;
  size = refl;
}

pub Follows-trans :
    (p : ℕ) (s t u : PortConfigureState) → Follows p s t → Follows p t u → Follows p s u
Follows-trans p s t u f g = record {
  holder = λ q e. g.holder q (f.holder q e);
  free = λ e. elim (f.free e) [ inl e2 ↦ g.free e2 | inr e2 ↦ inr (g.holder p e2) ];
  others = λ j ne. g.others j ne ∙ f.others j ne;
  size = g.size ∙ f.size;
}

pub set_port_phase_at-Follows :
    (p : ℕ) (s t : PortConfigureState) (phase : PortConfigPhase)
    → set_port_phase_at s p phase ≡ ok t
    → Follows p s t
unfolding set_port_phase_at
set_port_phase_at-Follows p s t phase run = elim (Bool-cases (ltb p (length s.port_config_phase))) [
  | inl inside ↦
      let at : ok (record s { port_config_phase = set s.port_config_phase p phase }) ≡ ok t =
        rw inside at run in
      let e : record s { port_config_phase = set s.port_config_phase p phase } ≡ t = cc in
      rw (sym e) (record {
        holder = λ q e. e;
        free = λ e. inl e;
        others = λ j ne. get_elem?-set_ne s.port_config_phase p j phase ne;
        size = length-set s.port_config_phase p phase;
      })
  | inr outside ↦ absurd (ground (arith, outside, run))
]

-- A port that waits because another one has the place.
abbrev pub waits : ℕ → ℕ → PortConfigureState → Run (Bool × PortConfigureState)
waits p q s =
    if q == p
    then ok (true, s)
    else elim (set_port_phase_at s p waiting_addressed) [ ok s ↦ ok (false, s) | panic ↦ panic ]

pub waits-Follows :
    (p q : ℕ) (s t : PortConfigureState) (can : Bool) → waits p q s ≡ ok (can, t) → Follows p s t
waits-Follows p q s t can run_eq = elim (Bool-cases (q == p)) [
  | inl same ↦ let e : s ≡ t = ground (arith, same, run_eq) in rw e (Follows-refl p t)
  | inr other ↦ elim (Run-cases (set_port_phase_at s p waiting_addressed)) [
    | inl (u, put) ↦
        let e : u ≡ t = ground (arith, other, put, run_eq) in
        set_port_phase_at-Follows p s t waiting_addressed (put ∙ ap ok e)
    | inr fails ↦ absurd (ground (arith, other, fails, run_eq))
  ]
]
