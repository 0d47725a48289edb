-- ===== src/Usb/Search/Belongs.antt =====
-- The endpoints that belong to an interface, and the search in kernel/src/usb/class_driver/mouse.rs.
use mathlib.Core.List.{append_assoc, append-nil}
use lemola_osv.Base.{
  ℕ, zero, suc, ◌<◌, ◌≡◌, ◌⊎◌, inl, inr, ◌∙◌, ◌≢◌, subst, refl, sym, ap, List, [], ◌∷◌, ◌++◌, map,
  Option, none, some, Run, ok, Bool, true, word, if◌then◌else◌, length, Bool-cases, arith,
}
use lemola_osv.Usb.Descriptor.{DescriptorRef, configuration, interface, endpoint, unknown}
use lemola_osv.Usb.Descriptor.Blocks.{AllBlocks, joined, described, next_block, next_end}
use lemola_osv.Usb.Host.{UsbApi}
use lemola_osv.Usb.Input.{EndpointInfo}
use lemola_osv.Usb.Search.{after_interface, after_descriptor, search}

module _ (U : UsbApi) (interface_wanted endpoint_wanted : List ℕ → Bool) where
  -- The loop over a list of descriptors.
  pub choose : List DescriptorRef → Option ℕ → Option EndpointInfo
  choose [] found = none
  choose (configuration bytes ∷ rest) found = choose rest found
  choose (unknown ∷ rest) found = choose rest found
  choose (interface idesc ∷ rest) found = choose rest (after_interface U interface_wanted idesc)
  choose (endpoint edesc ∷ rest) none = choose rest none
  choose (endpoint edesc ∷ rest) (some n) =
      let later = choose rest (some n) in
      if endpoint_wanted edesc then some (record { interface_num = n; endpoint = edesc }) else later

  after_descriptor-choose :
      (next_one : Option ℕ → Run (Option EndpointInfo)) (rest : List DescriptorRef)
      → ((found : Option ℕ) → next_one found ≡ ok (choose rest found))
      → (desc : DescriptorRef) (found : Option ℕ)
      → after_descriptor U interface_wanted endpoint_wanted next_one desc found
        ≡ ok (choose (desc ∷ rest) found)
  unfolding after_descriptor choose
  after_descriptor-choose next_one rest h (configuration bytes) found = h found
  after_descriptor-choose next_one rest h (interface idesc) found = h _
  after_descriptor-choose next_one rest h (endpoint edesc) none = h none
  after_descriptor-choose next_one rest h (endpoint edesc) (some n) =
      elim (Bool-cases (endpoint_wanted edesc)) [
        | inl wanted ↦ rw wanted refl
        | inr other ↦ rw other (h (some n))
      ]
  after_descriptor-choose next_one rest h unknown found = h found

  choose_nil : (found : Option ℕ) → choose [] found ≡ none
  unfolding choose
  choose_nil found = refl

  pub search-choose :
      (fuel : ℕ) (before : List ℕ) (blocks : List (List ℕ)) (found : Option ℕ)
      → AllBlocks blocks
      → length (before ++ joined blocks) < word
      → length blocks < fuel
      → search U interface_wanted endpoint_wanted fuel
          (record { bytes = before ++ joined blocks; read_bytes = length before })
          found
        ≡ ok (choose (map (described U.try_from) blocks) found)
  unfolding search
  search-choose zero before blocks found v small enough = elim enough [ ]
  search-choose (suc fuel) before [] found v small enough =
      rw (append-nil before) (rw (next_end U.try_from before) (ap ok (sym (choose_nil found))))
  search-choose (suc fuel) before (b ∷ blocks) found (v, vs) small enough =
      let run = next_block U.try_from before b (joined blocks) v small in
      let same : before ++ (b ++ joined blocks) ≡ (before ++ b) ++ joined blocks =
        sym (append_assoc before b (joined blocks)) in
      let rest = λ (found : Option ℕ).
        search-choose fuel (before ++ b) blocks found vs (rw same at small) (omega arith) in
      rw run (
        after_descriptor-choose
          (λ found.
            search U interface_wanted endpoint_wanted fuel
              (record { bytes = before ++ (b ++ joined blocks); read_bytes = length (before ++ b) })
              found)
          (map (described U.try_from) blocks) (λ found. rw same (rest found))
          (described U.try_from b) found)

  abbrev pub IsInterface : DescriptorRef → Type 0
  IsInterface (interface bytes) = Unit {0}
  IsInterface desc = ⊥

  abbrev pub NoInterface : List DescriptorRef → Type 0
  NoInterface [] = Unit {0}
  NoInterface (desc ∷ rest) = (¬ IsInterface desc) × NoInterface rest

  -- The endpoint belongs to the interface: it has the properties, and so has the last interface before it.
  pub record Belongs (refs : List DescriptorRef) (info : EndpointInfo) : Type 0 where
    pub before : List DescriptorRef
    pub idesc : List ℕ
    pub between : List DescriptorRef
    pub behind : List DescriptorRef
    pub split : refs ≡ before ++ interface idesc ∷ (between ++ endpoint info.endpoint ∷ behind)
    pub number : info.interface_num ≡ U.b_interface_number idesc
    pub its_interface : interface_wanted idesc ≡ true
    pub its_endpoint : endpoint_wanted info.endpoint ≡ true
    pub last : NoInterface between

  -- The same with an interface of that number in front of the descriptors.
  pub record Follows (refs : List DescriptorRef) (n : ℕ) (info : EndpointInfo) : Type 0 where
    pub between : List DescriptorRef
    pub behind : List DescriptorRef
    pub split : refs ≡ between ++ endpoint info.endpoint ∷ behind
    pub number : info.interface_num ≡ n
    pub its_endpoint : endpoint_wanted info.endpoint ≡ true
    pub last : NoInterface between

  Belongs-later :
      (desc : DescriptorRef) (refs : List DescriptorRef) (info : EndpointInfo)
      → Belongs refs info
      → Belongs (desc ∷ refs) info
  Belongs-later desc refs info h = record {
    before = desc ∷ h.before;
    idesc = h.idesc;
    between = h.between;
    behind = h.behind;
    split = ap (λ r. desc ∷ r) h.split;
    number = h.number;
    its_interface = h.its_interface;
    its_endpoint = h.its_endpoint;
    last = h.last;
  }

  follows_later :
      (desc : DescriptorRef) (refs : List DescriptorRef) (n : ℕ) (info : EndpointInfo)
      → ¬ IsInterface desc
      → Follows refs n info
      → Follows (desc ∷ refs) n info
  follows_later desc refs n info other h = record {
    between = desc ∷ h.between;
    behind = h.behind;
    split = ap (λ r. desc ∷ r) h.split;
    number = h.number;
    its_endpoint = h.its_endpoint;
    last = (other, h.last);
  }

  later :
      (desc : DescriptorRef) (refs : List DescriptorRef) (found : Option ℕ) (info : EndpointInfo)
      → ¬ IsInterface desc
      → Belongs refs info ⊎ ((n : ℕ) × (found ≡ some n) × Follows refs n info)
      → Belongs (desc ∷ refs) info ⊎ ((n : ℕ) × (found ≡ some n) × Follows (desc ∷ refs) n info)
  later desc refs found info other (inl h) = inl (Belongs-later desc refs info h)
  later desc refs found info other (inr (n, same, h)) =
      inr (n, same, follows_later desc refs n info other h)

  -- What is chosen belongs to an interface of the list, or to the one in front of it.
  pub choose_sound :
      (refs : List DescriptorRef) (found : Option ℕ) (info : EndpointInfo)
      → choose refs found ≡ some info
      → Belongs refs info ⊎ ((n : ℕ) × (found ≡ some n) × Follows refs n info)
  unfolding choose
  choose_sound [] found info e = cc
  choose_sound (configuration bytes ∷ refs) found info e =
      later (configuration bytes) refs found info (λ h. h) (choose_sound refs found info e)
  choose_sound (unknown ∷ refs) found info e =
      later unknown refs found info (λ h. h) (choose_sound refs found info e)
  choose_sound (endpoint edesc ∷ refs) none info e =
      later (endpoint edesc) refs none info (λ h. h) (choose_sound refs none info e)
  choose_sound (endpoint edesc ∷ refs) (some n) info e = elim (Bool-cases (endpoint_wanted edesc)) [
    | inl wanted ↦
        let info' : EndpointInfo = record { interface_num = n; endpoint = edesc } in
        let same : info' ≡ info = cc (rw wanted at e) in
        inr (
          n,
          refl,
          subst (Follows (endpoint edesc ∷ refs) n) same (record {
            between = [];
            behind = refs;
            split = refl;
            number = refl;
            its_endpoint = wanted;
            last = tt;
          }),
        )
    | inr other ↦
        later (endpoint edesc) refs (some n) info (λ h. h)
          (choose_sound refs (some n) info (rw other at e))
  ]
  choose_sound (interface idesc ∷ refs) found info e = elim (Bool-cases (interface_wanted idesc)) [
    | inl wanted ↦
        inl (elim (choose_sound refs (some (U.b_interface_number idesc)) info (rw wanted at e)) [
          | inl h ↦ Belongs-later (interface idesc) refs info h
          | inr (n, same, h) ↦ record {
            before = [];
            idesc = idesc;
            between = h.between;
            behind = h.behind;
            split = ap (λ r. interface idesc ∷ r) h.split;
            number = cc (h.number, same);
            its_interface = wanted;
            its_endpoint = h.its_endpoint;
            last = h.last;
          }
        ])
    | inr other ↦ elim (choose_sound refs none info (rw other at e)) [
      | inl h ↦ inl (Belongs-later (interface idesc) refs info h)
      | inr (n, same, h) ↦ cc
    ]
  ]

  chosen_after :
      (between behind : List DescriptorRef) (n : ℕ) (edesc : List ℕ)
      → endpoint_wanted edesc ≡ true
      → NoInterface between
      → choose (between ++ endpoint edesc ∷ behind) (some n) ≢ none
  unfolding choose
  chosen_after [] behind n edesc wanted last e = cc (rw wanted at e)
  chosen_after (configuration bytes ∷ between) behind n edesc wanted last e =
      chosen_after between behind n edesc wanted last.1 e
  chosen_after (unknown ∷ between) behind n edesc wanted last e =
      chosen_after between behind n edesc wanted last.1 e
  chosen_after (interface idesc ∷ between) behind n edesc wanted last e = last.0 tt
  chosen_after (endpoint other ∷ between) behind n edesc wanted last e =
      elim (Bool-cases (endpoint_wanted other)) [
        | inl first ↦ cc (rw first at e)
        | inr no_first ↦ chosen_after between behind n edesc wanted last.1 (rw no_first at e)
      ]

  pub chosen :
      (before between behind : List DescriptorRef) (found : Option ℕ) (idesc edesc : List ℕ)
      → interface_wanted idesc ≡ true
      → endpoint_wanted edesc ≡ true
      → NoInterface between
      → choose (before ++ interface idesc ∷ (between ++ endpoint edesc ∷ behind)) found ≢ none
  unfolding choose
  chosen [] between behind found idesc edesc its wanted last e =
      let number : after_interface U interface_wanted idesc ≡ some (U.b_interface_number idesc) =
        rw its refl in
      let refs = between ++ endpoint edesc ∷ behind in
      chosen_after between behind (U.b_interface_number idesc) edesc wanted last
        (sym (ap (λ f. choose refs f) number) ∙ e)
  chosen (configuration bytes ∷ before) between behind found idesc edesc its wanted last e =
      chosen before between behind found idesc edesc its wanted last e
  chosen (unknown ∷ before) between behind found idesc edesc its wanted last e =
      chosen before between behind found idesc edesc its wanted last e
  chosen (interface other ∷ before) between behind found idesc edesc its wanted last e =
      chosen before between behind _ idesc edesc its wanted last e
  chosen (endpoint other ∷ before) between behind none idesc edesc its wanted last e =
      chosen before between behind none idesc edesc its wanted last e
  chosen (endpoint other ∷ before) between behind (some n) idesc edesc its wanted last e =
      elim (Bool-cases (endpoint_wanted other)) [
        | inl first ↦ cc (rw first at e)
        | inr no_first ↦
            chosen before between behind (some n) idesc edesc its wanted last (rw no_first at e)
      ]
