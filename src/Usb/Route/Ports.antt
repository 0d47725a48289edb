-- ===== src/Usb/Route/Ports.antt =====
-- A route lists the ports of the hubs on the way: kernel/src/xhci.rs.
use Prim.Native.Nat.{bit_and, bit_or}
use native.Mathlib.Nat.{
  pow-suc, one-le-pow, add-mul-div_right, mul-le-mul_right, zero-mul, div-eq_of_lt,
}
use lemola_osv.Base.{
  ℕ, zero, suc, ◌+◌, ◌*◌, ◌/◌, ◌%◌, ◌^◌, ◌<◌, ◌≤◌, ◌≡◌, ◌∙◌, refl, List, [], ◌∷◌, ◌++◌, length,
  ◌==◌, arith, false,
}
use lemola_osv.Base.Digits.{bit_or_above, bit_and_above, bit_and_nibble}
use lemola_osv.Usb.Route.{next_route_from, next_route}

-- The route string of these ports, the root's side first: four bits for each.
unfoldable pub route : List ℕ → ℕ
route [] = 0
route (port ∷ ports) = port + 16 * route ports

-- Ports from 1 to 15.
abbrev pub AllPorts : List ℕ → Type 0
AllPorts [] = Unit {0}
AllPorts (port ∷ ports) = (1 ≤ port) × (port ≤ 15) × AllPorts ports

pow_shift : (shift : ℕ) → 2 ^ (shift + 4) ≡ 2 ^ shift * 16
pow_shift shift =
    let next : shift + 4 ≡ suc (suc (suc (suc shift))) = omega arith in
    rw next (
      omega (
        arith,
        pow-suc 2 (suc (suc (suc shift))),
        pow-suc 2 (suc (suc shift)),
        pow-suc 2 (suc shift),
        pow-suc 2 shift,
      ))

-- The digits that a round tests.
tested :
    (shift low high : ℕ)
    → low < 2 ^ shift
    → bit_and (low + high * 2 ^ shift) (15 * 2 ^ shift) ≡ high % 16 * 2 ^ shift
tested shift low high h =
    let above : (low + high * 2 ^ shift) / 2 ^ shift ≡ low / 2 ^ shift + high =
      add-mul-div_right low high (one-le-pow shift 2 (omega arith)) in
    let none_below : low / 2 ^ shift ≡ 0 = div-eq_of_lt h in
    let read : low / 2 ^ shift + high ≡ high = omega arith in
    rw (bit_and_above, above, read, bit_and_nibble) refl

==-positive : (n : ℕ) → 1 ≤ n → (n == 0) ≡ false
==-positive n h = ground arith

stops :
    (rounds shift low high port : ℕ)
    → low < 2 ^ shift
    → high % 16 ≡ 0
    → next_route_from (suc rounds) shift (low + high * 2 ^ shift) port
      ≡ bit_or (low + high * 2 ^ shift) (port * 2 ^ shift)
unfolding next_route_from
stops rounds shift low high port small free = rw (tested shift low high small, free, zero-mul) refl

goes_on :
    (rounds shift low high port : ℕ)
    → low < 2 ^ shift
    → 1 ≤ high % 16
    → next_route_from (suc rounds) shift (low + high * 2 ^ shift) port
      ≡ next_route_from rounds (shift + 4) (low + high * 2 ^ shift) port
unfolding next_route_from
goes_on rounds shift low high port small taken =
    let nonzero : 1 ≤ high % 16 * 2 ^ shift =
      omega (arith, one-le-pow shift 2 (omega arith), mul-le-mul_right (2 ^ shift) taken) in
    rw (tested shift low high small, ==-positive _ nonzero) refl

-- Four digits more below.
regroup :
    (shift low p rest : ℕ)
    → low + (p + 16 * rest) * 2 ^ shift ≡ low + p * 2 ^ shift + rest * 2 ^ (shift + 4)
regroup shift low p rest = rw pow_shift (omega arith)

below_next : (shift low p : ℕ) → low < 2 ^ shift → p ≤ 15 → low + p * 2 ^ shift < 2 ^ (shift + 4)
below_next shift low p small to = rw pow_shift (omega (arith, mul-le-mul_right (2 ^ shift) to))

next_route_from_lem :
    (ports : List ℕ) (rounds shift low port : ℕ)
    → AllPorts ports
    → length ports < rounds
    → low < 2 ^ shift
    → next_route_from rounds shift (low + route ports * 2 ^ shift) port
      ≡ low + route (ports ++ port ∷ []) * 2 ^ shift
unfolding route
next_route_from_lem [] (suc rounds) shift low port all h small =
    stops rounds shift low 0 port small refl
    ∙ (let here : low + 0 ≡ low = omega arith in
        let alone : port + 0 ≡ port = omega arith in
        rw (zero-mul, here, alone) (bit_or_above shift low port small))
next_route_from_lem (p ∷ ports) (suc rounds) shift low port (from, to, all) h small =
    goes_on rounds shift low (p + 16 * route ports) port small (omega arith)
    ∙ rw (regroup shift low p (route ports), regroup shift low p (route (ports ++ port ∷ [])))
        (next_route_from_lem ports rounds (shift + 4) (low + p * 2 ^ shift) port all (omega arith)
          (below_next shift low p small to))
next_route_from_lem ports zero shift low port all h small = absurd (omega arith)

no_route_from :
    (ports : List ℕ) (rounds shift low port : ℕ)
    → AllPorts ports
    → rounds ≤ length ports
    → low < 2 ^ shift
    → next_route_from rounds shift (low + route ports * 2 ^ shift) port ≡ 0
unfolding route next_route_from
no_route_from ports zero shift low port all h small = refl
no_route_from (p ∷ ports) (suc rounds) shift low port (from, to, all) h small =
    goes_on rounds shift low (p + 16 * route ports) port small (omega arith)
    ∙ rw (regroup shift low p (route ports)) (
        no_route_from ports rounds (shift + 4) (low + p * 2 ^ shift) port all (omega arith)
          (below_next shift low p small to))
no_route_from [] (suc rounds) shift low port all h small = absurd (omega arith)

-- With fewer than four ports on the way, `next_route` adds a port at the end of the route; with four or
-- more it gives 0.
pub next_route_lem :
    (ports : List ℕ) (port : ℕ)
    → AllPorts ports
    → (length ports < 4 → next_route (route ports) port ≡ route (ports ++ port ∷ []))
      × (4 ≤ length ports → next_route (route ports) port ≡ 0)
unfolding next_route
next_route_lem ports port all =
    let start : (n : ℕ) → 0 + n * 2 ^ 0 ≡ n = λ n. omega arith in
    (
      (λ h. rw (start, start) at (next_route_from_lem ports 4 0 0 port all h (omega arith))),
      (λ h. rw start at (no_route_from ports 4 0 0 port all h (omega arith))),
    )
