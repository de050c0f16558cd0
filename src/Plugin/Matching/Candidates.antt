-- ===== src/Plugin/Matching/Candidates.antt =====
-- The result of the loop that looks for a buyer and a seller with different accounts.
use gxmis_plugin.Common.{
  ℕ, zero, suc, ◌+◌, ◌<◌, bytes_eq, List, [], ◌∷◌, length, get_elem?, drop, true, false, none, some,
  ok, ◌>>=◌, Result, ◌≡◌, ◌≤◌, refl, sym, ap, ◌∙◌, arith, Bool-cases, inl, inr,
}
use gxmis_plugin.Plugin.Matching.{
  MatchingError, ConsignmentOrder, Cursor, as_order, advance, goes_on, candidate_loop, candidates,
}
use gxmis_plugin.Plugin.Matching.Chosen.{
  bytes_eq_comm, first_other, last_of, found, chosen, drop-cons, drop-nil, found_here, found_later,
  found_nowhere,
}

fuel_eq : (m n : ℕ) → suc m + suc n ≡ suc (m + suc n)
fuel_eq m n = omega arith

module _ {Asset : Type 0} where
  module _ (buyers sellers : List (ConsignmentOrder Asset)) where
    loop_stops :
        (fuel : ℕ) (c : Cursor Asset)
        → goes_on buyers sellers c ≡ false
        → candidate_loop buyers sellers (suc fuel) c ≡ ok c
    unfolding candidate_loop
    loop_stops fuel c h = ground arith

    loop_continues :
        (fuel : ℕ) (c c' : Cursor Asset)
        → goes_on buyers sellers c ≡ true
        → advance buyers sellers c ≡ ok c'
        → candidate_loop buyers sellers (suc fuel) c ≡ candidate_loop buyers sellers fuel c'
    unfolding candidate_loop
    loop_continues fuel c c' h e = ground arith

    -- The loop ends, with these two orders.
    abbrev Ends : ℕ → Cursor Asset → ConsignmentOrder Asset × ConsignmentOrder Asset → Type 0
    Ends fuel c pair =
        (d : Cursor Asset) × (candidate_loop buyers sellers fuel c ≡ ok d)
        × ((d.buyer, d.seller) ≡ pair)

    next_buyer :
        (c : Cursor Asset) (l o : ConsignmentOrder Asset)
        → get_elem? buyers c.bi ≡ some o
        → length sellers ≤ c.si
        → get_elem? sellers 0 ≡ some l
        → advance buyers sellers c
          ≡ ok (record c {
            buyer = o;
            seller = record c.seller { consigner = l.consigner };
            bi = suc c.bi;
          })
    unfolding advance
    next_buyer c l o eb es el = ground arith

    next_seller :
        (c : Cursor Asset) (b o : ConsignmentOrder Asset)
        → get_elem? sellers c.si ≡ some o
        → c.si < length sellers
        → get_elem? buyers 0 ≡ some b
        → advance buyers sellers c
          ≡ ok (record c {
            buyer = record c.buyer { consigner = b.consigner };
            seller = o;
            si = suc c.si;
          })
    unfolding advance
    next_seller c b o es h eb = ground arith

    module _ (l p : ConsignmentOrder Asset) (el : get_elem? sellers 0 ≡ some l) (m : ℕ)
        (used_up : length sellers ≤ m) where
      abbrev seller : ConsignmentOrder Asset
      seller = record p { consigner = l.consigner }

      abbrev buying : ConsignmentOrder Asset → ℕ → Cursor Asset
      buying b n = record { buyer = b; seller = seller; bi = n; si = m }

      another_buyer :
          (n : ℕ) (rest : List (ConsignmentOrder Asset)) (b : ConsignmentOrder Asset) (fuel : ℕ)
          → bytes_eq b.consigner l.consigner ≡ false
          → Ends (suc fuel) (buying b n) (found l.consigner b rest, seller)
      unfolding goes_on
      another_buyer n rest b fuel other = (
        buying b n,
        loop_stops fuel (buying b n) (ground arith),
        ap (λ z. (z, seller))
            (sym (found_here l.consigner b rest (bytes_eq_comm l.consigner b.consigner ∙ other))),
      )

      -- From here on the sellers are used up; `rest` are the buyers that are not read yet.
      buyers_phase :
          (rest : List (ConsignmentOrder Asset)) (n : ℕ) (b : ConsignmentOrder Asset) (fuel : ℕ)
          → drop n buyers ≡ rest
          → length rest ≤ fuel
          → Ends (suc fuel) (buying b n) (found l.consigner b rest, seller)
      unfolding goes_on
      buyers_phase [] n b fuel left enough = elim (Bool-cases (bytes_eq b.consigner l.consigner)) [
        | inr other ↦ another_buyer n [] b fuel other
        | inl same ↦ (
          buying b n,
          loop_stops fuel (buying b n) (ground (arith, drop-nil buyers n left)),
          ap (λ z. (z, seller))
              (sym (found_nowhere l.consigner b (bytes_eq_comm l.consigner b.consigner ∙ same))),
        )
      ]
      buyers_phase (o ∷ os) n b zero left enough = absurd (omega arith)
      buyers_phase (o ∷ os) n b (suc fuel) left enough =
          let next = drop-cons buyers n o os left in
          let (d, e, pair) = buyers_phase os (suc n) o fuel (next.1) (omega arith) in
          elim (Bool-cases (bytes_eq b.consigner l.consigner)) [
            | inr other ↦ another_buyer n (o ∷ os) b (suc fuel) other
            | inl same ↦ (
              d,
              loop_continues (suc fuel) (buying b n) (buying o (suc n)) (ground arith)
                    (next_buyer (buying b n) l o (next.0) (omega arith) el)
                  ∙ e,
              pair
                  ∙ ap (λ z. (z, seller))
                      (sym (
                        found_later l.consigner b o os
                          (bytes_eq_comm l.consigner b.consigner ∙ same))),
            )
          ]

    module _ (b l : ConsignmentOrder Asset) (bs : List (ConsignmentOrder Asset))
        (eb : buyers ≡ b ∷ bs) (el : get_elem? sellers 0 ≡ some l) where
      abbrev selling : ConsignmentOrder Asset → ℕ → Cursor Asset
      selling o n = record { buyer = b; seller = o; bi = 0; si = n }

      abbrev result :
          ConsignmentOrder Asset
          → List (ConsignmentOrder Asset)
          → ConsignmentOrder Asset × ConsignmentOrder Asset
      result o os = elim (first_other b.consigner (o ∷ os)) [
        | some s ↦ (b, s)
        | none ↦ (found l.consigner b bs, record (last_of o os) { consigner = l.consigner })
      ]

      another_seller :
          (n : ℕ) (os : List (ConsignmentOrder Asset)) (o : ConsignmentOrder Asset) (fuel : ℕ)
          → bytes_eq b.consigner o.consigner ≡ false
          → Ends (suc fuel) (selling o n) (result o os)
      unfolding goes_on first_other
      another_seller n os o fuel other =
          (selling o n, loop_stops fuel (selling o n) (ground arith), ground arith)

      -- `o` is the seller read last, and `os` the sellers that are not read yet.
      sellers_phase :
          (os : List (ConsignmentOrder Asset)) (n : ℕ) (o : ConsignmentOrder Asset) (fuel : ℕ)
          → drop n sellers ≡ os
          → length os + length buyers ≤ fuel
          → Ends (suc fuel) (selling o n) (result o os)
      unfolding goes_on first_other
      sellers_phase [] n o zero left enough = absurd (omega (arith, ap length eb))
      sellers_phase (p ∷ os) n o zero left enough = absurd (omega arith)
      sellers_phase [] n o (suc fuel) left enough =
          let used_up = drop-nil sellers n left in
          elim (Bool-cases (bytes_eq b.consigner o.consigner)) [
            | inr other ↦ another_seller n [] o (suc fuel) other
            | inl same_o ↦
                let (d, e, pair) =
                  buyers_phase l o el n used_up bs 1 b fuel (ap (drop 1) eb)
                    (omega (arith, ap length eb)) in
                (
                  d,
                  loop_continues (suc fuel) (selling o n) (buying l o el n used_up b 1)
                        (ground (arith, ap length eb))
                        (next_buyer (selling o n) l b (ap (λ z. get_elem? z 0) eb) used_up el)
                      ∙ e,
                  pair ∙ ground arith,
                )
          ]
      sellers_phase (p ∷ os) n o (suc fuel) left enough =
          let next = drop-cons sellers n p os left in
          let (d, e, pair) = sellers_phase os (suc n) p fuel (next.1) (omega arith) in
          elim (Bool-cases (bytes_eq b.consigner o.consigner)) [
            | inr other ↦ another_seller n (p ∷ os) o (suc fuel) other
            | inl same_o ↦ (
              d,
              loop_continues (suc fuel) (selling o n) (selling p (suc n)) (ground arith)
                    (next_seller (selling o n) b p (next.0) (next.2) (ap (λ z. get_elem? z 0) eb))
                  ∙ e,
              pair ∙ ground arith,
            )
          ]

  -- The first round reads the accounts of the first two orders.
  first_round :
      (b l : ConsignmentOrder Asset) (bs ls : List (ConsignmentOrder Asset)) (fuel : ℕ)
      → candidate_loop
          (b ∷ bs)
          (l ∷ ls)
          (suc fuel)
          (record { buyer = as_order b; seller = as_order l; bi = 0; si = 0 })
        ≡ candidate_loop (b ∷ bs) (l ∷ ls) fuel (record { buyer = b; seller = l; bi = 0; si = 1 })
  unfolding goes_on
  first_round b l bs ls fuel =
      let first : Cursor Asset = record {
        buyer = as_order b;
        seller = as_order l;
        bi = 0;
        si = 0;
      } in
      loop_continues (b ∷ bs) (l ∷ ls) fuel first (record { buyer = b; seller = l; bi = 0; si = 1 })
        (ground arith) (next_seller (b ∷ bs) (l ∷ ls) first b l refl (omega arith) refl)

  -- The loop reads only rows that exist, ends, and picks the pair that `chosen` describes.
  pub candidates_lem :
      (b l : ConsignmentOrder Asset) (bs ls : List (ConsignmentOrder Asset))
      → candidates (b ∷ bs) (l ∷ ls) ≡ ok (chosen b bs l ls)
  unfolding candidates chosen
  candidates_lem b l bs ls =
      let (d, e, pair) =
        sellers_phase (b ∷ bs) (l ∷ ls) b l bs refl refl ls 1 l (length ls + suc (length bs)) refl
          (omega arith) in
      let first : Cursor Asset = record {
        buyer = as_order b;
        seller = as_order l;
        bi = 0;
        si = 0;
      } in
      let rows = suc (length ls) + suc (length bs) in
      let run : candidate_loop (b ∷ bs) (l ∷ ls) (suc rows) first ≡ ok d =
        first_round b l bs ls rows
        ∙ ap
            (λ n.
              candidate_loop (b ∷ bs) (l ∷ ls) n (record { buyer = b; seller = l; bi = 0; si = 1 }))
            (fuel_eq (length ls) (length bs))
        ∙ e in
      let answer : candidates (b ∷ bs) (l ∷ ls) ≡ ok (d.buyer, d.seller) =
        ap (λ (r : Result MatchingError (Cursor Asset)). r >>= λ c. ok (c.buyer, c.seller)) run in
      answer ∙ ap ok pair
