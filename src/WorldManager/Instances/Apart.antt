-- ===== src/WorldManager/Instances/Apart.antt =====
-- The bounds of shared instances, `SharedInstanceLeaseManager.createLease` of
-- packages/world-manager/src/leases.ts.
use text.Mathlib.TextLemmas.{append_cancel_left}
use badgerbots_code_studio.WorldManager.Decimal.{padded}
use badgerbots_code_studio.WorldManager.Decimal.Injective.{padded-injective}
use native.Mathlib.Nat.{
  le_of_mul-le-mul_right, mul-le-mul_right, div-add-mod', add-mul, suc-mul, one-le-pow,
}
use badgerbots_code_studio.Prelude.{
  arith, ℕ, suc, ◌+◌, ◌*◌, ◌/◌, ◌%◌, ◌^◌, ◌≤◌, ◌<◌, ◌≡◌, refl, ℤ, pos, negsuc, pos_part, neg_part,
  ◌*ℤ◌, ◌-ℤ◌, ◌≤ℤ◌, Number, IsAtMost, Bool, true, false, none, some, ok, ltb_number-false_iff,
  ltb-false_iff, if◌then◌else◌, String, inl, inr, ◌∙◌, sym, Bool-cases, ltb, ltb→lt, ◌||◌,
}
use badgerbots_code_studio.WorldManager.Leases.{LeaseScope, outside_bounds}
use badgerbots_code_studio.WorldManager.Instances.{
  SharedInstanceOptions, square_root, accepts_options, low_edge, high_edge, bounds_at,
  create_shared_lease, crosses, position_refusal,
}

-- A product with a number that is not negative, by parts.
*ℤ_parts :
    (a : ℤ) (n : ℕ)
    → pos_part (a *ℤ pos n) + neg_part a * n ≡ neg_part (a *ℤ pos n) + pos_part a * n
unfolding ◌*ℤ◌
*ℤ_parts (pos m) n = ground arith
*ℤ_parts (negsuc m) n = ground arith

-ℤ_parts :
    (a b : ℤ)
    → pos_part (a -ℤ b) + neg_part a + pos_part b ≡ neg_part (a -ℤ b) + pos_part a + neg_part b
unfolding ◌-ℤ◌
-ℤ_parts a b = ground arith

scaled_le :
    (l : ℤ) (h p : ℕ) → 0 < p → (l *ℤ pos p) ≤ℤ (pos h *ℤ pos p) → pos_part l ≤ neg_part l + h
scaled_le l h p positive le =
    le_of_mul-le-mul_right {k = p}
      (omega (arith, *ℤ_parts l p, *ℤ_parts (pos h) p, le, add-mul (neg_part l) h p)) positive

-- A coordinate at least the low edge of one instance and at most the high edge of another.
edges_close :
    (x : Number) (c d size : ℕ)
    → IsAtMost (low_edge d size) x
    → IsAtMost x (high_edge c size)
    → d ≤ c + size
edges_close x c d size low high =
    let le : pos_part (pos (2 * d) -ℤ pos size)
        ≤ neg_part (pos (2 * d) -ℤ pos size) + (2 * c + size) =
      scaled_le (pos (2 * d) -ℤ pos size) (2 * c + size) (2 ^ x.scale)
        (one-le-pow x.scale 2 (omega arith)) (omega (arith, low, high)) in
    omega (arith, le, -ℤ_parts (pos (2 * d)) (pos size))

-- A line further on is at least the separation away.
next_line : (a b separation : ℕ) → a < b → a * separation + separation ≤ b * separation
next_line a b separation h = omega (
  arith,
  mul-le-mul_right {m = suc a} {n = b} separation (omega (arith, h)),
  suc-mul a separation,
)

-- Lines of the grid that are so close are one line.
same_line :
    (a b separation size : ℕ)
    → size < separation
    → b * separation ≤ a * separation + size
    → a * separation ≤ b * separation + size
    → a ≡ b
same_line a b separation size wide h k = elim (Bool-cases (ltb a b)) [
  | inl less ↦ absurd (omega (arith, next_line a b separation (ltb→lt a b less)))
  | inr more ↦ elim (Bool-cases (ltb b a)) [
    | inl greater ↦ absurd (omega (arith, next_line b a separation (ltb→lt b a greater)))
    | inr less ↦ omega (arith, (ltb-false_iff a b).0 more, (ltb-false_iff b a).0 less)
  ]
]

within_edges :
    (cx cz size : ℕ) (x z : Number)
    → crosses (bounds_at cx cz size) (some x) (some z) ≡ false
    → IsAtMost (low_edge cx size) x
      × IsAtMost x (high_edge cx size)
      × IsAtMost (low_edge cz size) z
      × IsAtMost z (high_edge cz size)
within_edges cx cz size x z h =
    let (a, b, c, d) = all_false _ _ _ _ h in
    (
      (ltb_number-false_iff x (low_edge cx size)).0 a,
      (ltb_number-false_iff (high_edge cx size) x).0 b,
      (ltb_number-false_iff z (low_edge cz size)).0 c,
      (ltb_number-false_iff (high_edge cz size) z).0 d,
    )
  where
    all_false :
        (a b c d : Bool)
        → (a || b || c || d) ≡ false
        → (a ≡ false) × (b ≡ false) × (c ≡ false) × (d ≡ false)
    all_false a b c d h = ground arith

-- The options that the constructor accepts have instances that are further apart than they are wide.
options_wide :
    (o : SharedInstanceOptions) → accepts_options o ≡ true → o.instance_size < o.separation
unfolding accepts_options
options_wide o h = ground arith

-- A position of a grid is determined by its column and its row.
same_cell : (a b n : ℕ) → a % n ≡ b % n → a / n ≡ b / n → a ≡ b
same_cell a b n h k = sym (div-add-mod' a n) ∙ cc (h, k) ∙ div-add-mod' b n

-- Two instances in one world that contain a position.
same_slot :
    (o : SharedInstanceOptions) (a b : ℕ) (lease_a lease_b : String) (s t : LeaseScope)
    (x z : Number)
    → accepts_options o ≡ true
    → a / o.instances_per_physical_world ≡ b / o.instances_per_physical_world
    → position_refusal (some x) (some z) (ok (create_shared_lease o lease_a s a)) ≡ none
    → position_refusal (some x) (some z) (ok (create_shared_lease o lease_b t b)) ≡ none
    → a ≡ b
unfolding create_shared_lease
same_slot o a b lease_a lease_b s t x z accepted world in_a in_b =
    let n = o.instances_per_physical_world in
    let w = square_root n in
    let wide = options_wide o accepted in
    let (ax, ax', az, az') =
      within_edges (a % n % w * o.separation) (a % n / w * o.separation) o.instance_size x z
        (not_refused _ in_a) in
    let (bx, bx', bz, bz') =
      within_edges (b % n % w * o.separation) (b % n / w * o.separation) o.instance_size x z
        (not_refused _ in_b) in
    let column =
      same_line (a % n % w) (b % n % w) o.separation o.instance_size wide
        (edges_close x _ _ o.instance_size bx ax') (edges_close x _ _ o.instance_size ax bx') in
    let row =
      same_line (a % n / w) (b % n / w) o.separation o.instance_size wide
        (edges_close z _ _ o.instance_size bz az') (edges_close z _ _ o.instance_size az bz') in
    same_cell a b n (same_cell (a % n) (b % n) w column row) world
  where
    not_refused :
        (crossing : Bool)
        → (if crossing then some outside_bounds else none) ≡ none
        → crossing ≡ false
    not_refused true h = absurd (cc)
    not_refused false h = refl

-- The name of the physical world determines the index of the world.
same_world :
    (o : SharedInstanceOptions) (a b : ℕ) (lease_a lease_b : String) (s t : LeaseScope)
    → (create_shared_lease o lease_a s a).physical_world_id
      ≡ (create_shared_lease o lease_b t b).physical_world_id
    → a / o.instances_per_physical_world ≡ b / o.instances_per_physical_world
unfolding create_shared_lease
same_world o a b lease_a lease_b s t e = omega (
  arith,
  padded-injective 2 _ _ (
      append_cancel_left "bb-shared-" (padded 2 (a / o.instances_per_physical_world + 1))
        (padded 2 (b / o.instances_per_physical_world + 1)) e),
)

-- With options that the constructor accepts, the leases of two slots that name the same physical world
-- and both contain a position are those of one slot: two private instances never overlap.
pub instances_apart :
    (o : SharedInstanceOptions) (a b : ℕ) (lease_a lease_b : String) (s t : LeaseScope)
    (x z : Number)
    → accepts_options o ≡ true
    → (create_shared_lease o lease_a s a).physical_world_id
      ≡ (create_shared_lease o lease_b t b).physical_world_id
    → position_refusal (some x) (some z) (ok (create_shared_lease o lease_a s a)) ≡ none
    → position_refusal (some x) (some z) (ok (create_shared_lease o lease_b t b)) ≡ none
    → a ≡ b
instances_apart o a b lease_a lease_b s t x z accepted e in_a in_b =
    same_slot o a b lease_a lease_b s t x z accepted (same_world o a b lease_a lease_b s t e) in_a
      in_b
