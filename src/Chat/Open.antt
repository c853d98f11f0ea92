-- ===== src/Chat/Open.antt =====
-- A chat has one open offer and one agreed deal at most.
use nivra.Prelude.{
  ℕ, ◌+◌, ◌≤◌, ◌≡◌, refl, inl, inr, Bool, true, false, Option, [], ◌∷◌, map, any, length, filter,
  arith, Bool-cases, if◌then◌else◌,
}
use nivra.Time.{Instant}
use nivra.Chat.Offers.{
  Offer, OfferStatus, accepted, Offers, Terms, has_id, is_pending, is_accepted, set_one, set_status,
  replace_one, supersede_one, new_offer, write_offer, write_accept,
}

abbrev pub waits : Offer → Bool
waits o = is_pending o.status

abbrev pub agreed : Offer → Bool
agreed o = is_accepted o.status

unfoldable pub count : (Offer → Bool) → Offers → ℕ
count p os = length (filter p os)

unfoldable pub IsDistinct : Offers → Type 0
IsDistinct [] = Unit
IsDistinct (o ∷ os) = (any (has_id o.id) os ≡ false) × IsDistinct os

pub record OneDeal (os : Offers) : Type 0 where
  pub one_open : count waits os ≤ 1
  pub one_agreed : count agreed os ≤ 1
  pub distinct : IsDistinct os

-- Changing a row that keeps its id keeps the ids of the table.
any-map :
    (f : Offer → Offer) (id : ℕ) (os : Offers)
    → ((o : Offer) → (f o).id ≡ o.id)
    → any (has_id id) (map f os) ≡ any (has_id id) os
any-map f id [] k = refl
any-map f id (o ∷ os) k = rw (k o, any-map f id os k) refl

IsDistinct-map :
    (f : Offer → Offer) (os : Offers)
    → ((o : Offer) → (f o).id ≡ o.id)
    → IsDistinct os
    → IsDistinct (map f os)
unfolding IsDistinct
IsDistinct-map f [] k h = tt
IsDistinct-map f (o ∷ os) k h = (rw (k o, any-map f o.id os k) h.0, IsDistinct-map f os k h.1)

-- A change that no row meets a test after it which did not meet it before.
count-map :
    (p : Offer → Bool) (f : Offer → Offer) (os : Offers)
    → ((o : Offer) → p (f o) ≡ true → p o ≡ true)
    → count p (map f os) ≤ count p os
unfolding count
count-map p f [] k = omega arith
count-map p f (o ∷ os) k = ground (arith, k o, count-map p f os k)

-- A change after which no row meets the test.
count-none :
    (p : Offer → Bool) (f : Offer → Offer) (os : Offers)
    → ((o : Offer) → p (f o) ≡ false)
    → count p (map f os) ≡ 0
unfolding count
count-none p f [] k = refl
count-none p f (o ∷ os) k = rw (k o) (count-none p f os k)

-- Of rows with different ids, at most one is changed.
count-set_one :
    (id : ℕ) (os : Offers)
    → IsDistinct os
    → count agreed (map (set_one id accepted) os)
      ≤ count agreed os + (if any (has_id id) os then 1 else 0)
unfolding count IsDistinct
count-set_one id [] h = omega arith
count-set_one id (o ∷ os) h = elim (Bool-cases (has_id id o)) [
  | inl here ↦
      (let same : o.id ≡ id = ground arith in
        let rest : any (has_id id) os ≡ false =
          (let moved : any (has_id id) os ≡ false = rw same at h.0 in moved) in
        ground (arith, rest, here, count-set_one id os h.1))
  | inr other ↦ ground (arith, other, count-set_one id os h.1)
]

set_one-id : (id : ℕ) (s : OfferStatus) (o : Offer) → (set_one id s o).id ≡ o.id
set_one-id id s o = ground arith

-- Setting a row to a status that is neither open nor agreed.
pub set_status-OneDeal :
    (id : ℕ) (s : OfferStatus) (os : Offers)
    → is_pending s ≡ false
    → is_accepted s ≡ false
    → OneDeal os
    → OneDeal (set_status id s os)
unfolding set_status
set_status-OneDeal id s os not_open not_agreed one = record {
  one_open = omega (arith, count-map waits (set_one id s) os (λ o. ground arith), one.one_open);
  one_agreed =
      omega (arith, count-map agreed (set_one id s) os (λ o. ground arith), one.one_agreed);
  distinct = IsDistinct-map (set_one id s) os (set_one-id id s) one.distinct;
}

replace_one-id : (now : Instant) (o : Offer) → (replace_one now o).id ≡ o.id
replace_one-id now o = ground arith

supersede_one-id : (o : Offer) → (supersede_one o).id ≡ o.id
supersede_one-id o = ground arith

pub write_offer-OneDeal :
    (os : Offers) (id user : ℕ) (t : Terms) (deposit : ℕ) (parent : Option ℕ) (now : Instant)
    → any (has_id id) os ≡ false
    → OneDeal os
    → OneDeal (write_offer os id user t deposit parent now)
unfolding write_offer new_offer count IsDistinct
write_offer-OneDeal os id user t deposit parent now fresh one = record {
  one_open = ground (arith, count-none waits (replace_one now) os (λ o. ground arith));
  one_agreed =
      omega (arith, count-map agreed (replace_one now) os (λ o. ground arith), one.one_agreed);
  distinct = (
    rw (any-map (replace_one now) id os (replace_one-id now)) fresh,
    IsDistinct-map (replace_one now) os (replace_one-id now) one.distinct,
  );
}

at_most_one : (n m : ℕ) (b : Bool) → n ≤ m + (if b then 1 else 0) → m ≡ 0 → n ≤ 1
at_most_one n m b h e = ground arith

pub write_accept-OneDeal : (os : Offers) (id : ℕ) → OneDeal os → OneDeal (write_accept os id)
unfolding write_accept set_status
write_accept-OneDeal os id one =
    let apart = IsDistinct-map supersede_one os supersede_one-id one.distinct in
    record {
      one_open = omega (
        arith,
        count-map waits (set_one id accepted) (map supersede_one os) (λ o. ground arith),
        count-map waits supersede_one os (λ o. ground arith),
        one.one_open,
      );
      one_agreed =
          at_most_one _ _ (any (has_id id) (map supersede_one os))
            (count-set_one id (map supersede_one os) apart)
            (count-none agreed supersede_one os (λ o. ground arith));
      distinct =
          IsDistinct-map (set_one id accepted) (map supersede_one os) (set_one-id id accepted)
            apart;
    }
