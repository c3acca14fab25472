-- ===== src/Worker/Expirations/ByRow.antt =====
-- apps/worker/src/jobs/membership-expiration.ts: what the grouped updates do to each row.
use pulso_crm.Prelude.{
  ℕ, ◌+◌, ◌≡◌, refl, sym, ap, ◌∙◌, Bool, true, false, Option, none, some, List, [], ◌∷◌, ◌++◌, ◌==◌,
  ==_iff, ◌&&◌, ◌||◌, if◌then◌else◌, find_many, update_where, count_where, includes, map,
  Bool-cases, inl, inr, arith,
}
use mathlib.Core.Path.{fun_ext}
use pulso_crm.Calendar.{Date}
use pulso_crm.Store.{Db, Branch, Membership}
use pulso_crm.Memberships.{is_active_period, ends_before}
use pulso_crm.Worker.Expirations.{
  Group, add_to_group, by_timezone, is_of, is_over, is_exhausted, expire, expire_groups,
  is_processed, expire_memberships,
}

any {ℓ} : {A : Type ℓ} → (A → Bool) → List A → Bool
any p [] = false
any p (x ∷ xs) = p x || any p xs

-- A period is over when it is an active one, of one of the branches, and its last day is before the
-- business day of that branch.
pub is_over_in : (ℕ → Date) → List Branch → Membership → Bool
unfolding any
is_over_in today branches m = any (λ b. is_over (today b.id) (b.id ∷ []) m) branches

-- What becomes of a period.
pub expire_row : (ℕ → Date) → List Branch → Membership → Membership
expire_row today branches m = if is_over_in today branches m || is_exhausted m then expire m else m

-- Is the period over in one of the groups?
in_groups : (ℕ → Date) → List Group → Membership → Bool
unfolding any
in_groups business_day gs m = any (λ g. is_over (business_day g.timezone) g.branches m) gs

or_assoc : (a b c : Bool) → (a || b) || c ≡ a || (b || c)
or_assoc true b c = refl
or_assoc false b c = refl

or_swap : (a b c : Bool) → a || (b || c) ≡ b || (a || c)
or_swap true true c = refl
or_swap true false c = refl
or_swap false b c = refl

distribute : (a b c e : Bool) → a && ((b || c) && e) ≡ (a && ((b || false) && e)) || (a && (c && e))
distribute a b c e = ground arith

includes-append :
    (a : ℕ) (xs : List ℕ) (y : ℕ) → includes a (xs ++ y ∷ []) ≡ (a == y) || includes a xs
includes-append a [] y = refl
includes-append a (x ∷ xs) y =
    ap (λ b. (a == x) || b) (includes-append a xs y) ∙ or_swap (a == x) (a == y) (includes a xs)

-- A branch that is added to a group adds its own periods.
is_over-append :
    (d : Date) (ids : List ℕ) (id : ℕ) (m : Membership)
    → is_over d (ids ++ id ∷ []) m ≡ is_over d (id ∷ []) m || is_over d ids m
is_over-append d ids id m = go m.branch_id
  where
    go :
        (o : Option ℕ)
        → (is_active_period m.status && (is_of (ids ++ id ∷ []) o && ends_before m.end_date d))
          ≡ (is_active_period m.status && (is_of (id ∷ []) o && ends_before m.end_date d))
            || (is_active_period m.status && (is_of ids o && ends_before m.end_date d))
    go none = ground arith
    go (some b) =
        ap (λ i. is_active_period m.status && (i && ends_before m.end_date d))
          (includes-append b ids id)
        ∙ distribute (is_active_period m.status) (b == id) (includes b ids)
            (ends_before m.end_date d)

add_to_group-in_groups :
    (day : ℕ → Date) (z id : ℕ) (gs : List Group) (m : Membership)
    → in_groups day (add_to_group z id gs) m ≡ is_over (day z) (id ∷ []) m || in_groups day gs m
unfolding add_to_group in_groups any
add_to_group-in_groups day z id [] m = refl
add_to_group-in_groups day z id (g ∷ gs) m = elim (Bool-cases (g.timezone == z)) [
  | inl h ↦
      let own : g.timezone ≡ z = (==_iff g.timezone z).0 h in
      rw h (
        ap (λ b. b || any (λ k. is_over (day k.timezone) k.branches m) gs)
          (is_over-append (day g.timezone) g.branches id m)
        ∙ or_assoc (is_over (day g.timezone) (id ∷ []) m) (is_over (day g.timezone) g.branches m) _
        ∙ ap
            (λ k.
              is_over (day k) (id ∷ []) m
              || (is_over (day g.timezone) g.branches m
                  || any (λ k. is_over (day k.timezone) k.branches m) gs))
            own)
  | inr h ↦ rw h (
      ap (λ b. is_over (day g.timezone) g.branches m || b) (add_to_group-in_groups day z id gs m)
      ∙ or_swap (is_over (day g.timezone) g.branches m) (is_over (day z) (id ∷ []) m) _)
]

-- The groups together are the branches.
by_timezone-in_groups :
    (zone : ℕ → ℕ) (day : ℕ → Date) (bs : List Branch) (gs : List Group) (m : Membership)
    → in_groups day (by_timezone zone bs gs) m
      ≡ is_over_in (λ b. day (zone b)) bs m || in_groups day gs m
unfolding by_timezone is_over_in any
by_timezone-in_groups zone day [] gs m = refl
by_timezone-in_groups zone day (b ∷ bs) gs m =
    by_timezone-in_groups zone day bs (add_to_group (zone b.id) b.id gs) m
    ∙ ap (λ x. any (λ c. is_over (day (zone c.id)) (c.id ∷ []) m) bs || x)
        (add_to_group-in_groups day (zone b.id) b.id gs m)
    ∙ or_swap (any (λ c. is_over (day (zone c.id)) (c.id ∷ []) m) bs)
        (is_over (day (zone b.id)) (b.id ∷ []) m) (in_groups day gs m)
    ∙ sym (or_assoc (is_over (day (zone b.id)) (b.id ∷ []) m) _ _)

-- A period that has expired is over in no group.
in_groups-expire :
    (day : ℕ → Date) (gs : List Group) (m : Membership) → in_groups day gs (expire m) ≡ false
unfolding in_groups any
in_groups-expire day [] m = refl
in_groups-expire day (g ∷ gs) m = in_groups-expire day gs m

-- A write, and one after it: each row is written once, if the second sees nothing of the first.
module _ {ℓ} {A : Type ℓ} (p q : A → Bool) (f : A → A) (once : (x : A) → q (f x) ≡ false) where
  two_writes :
      (xs : List A)
      → map (λ x. if q x then f x else x) (update_where p f xs)
        ≡ map (λ x. if p x || q x then f x else x) xs
  two_writes [] = refl
  two_writes (x ∷ xs) = λ i. row i ∷ two_writes xs i
    where
      row :
          (if q (if p x then f x else x)
            then f (if p x then f x else x)
            else if p x
            then f x
            else x)
          ≡ (if p x || q x then f x else x)
      row = elim (Bool-cases (p x)) [ inl h ↦ rw h (rw (once x) refl) | inr h ↦ rw h refl ]

  two_counts :
      (xs : List A)
      → count_where p xs + count_where q (update_where p f xs) ≡ count_where (λ x. p x || q x) xs
  two_counts [] = omega arith
  two_counts (x ∷ xs) = elim (Bool-cases (p x)) [
    | inl h ↦ rw h (rw (once x) (omega (arith, two_counts xs)))
    | inr h ↦ rw h (elim (Bool-cases (q x)) [
      | inl k ↦ rw k (omega (arith, two_counts xs))
      | inr k ↦ rw k (omega (arith, two_counts xs))
    ])
  ]

map_same {ℓ} : {A : Type ℓ} (xs : List A) → xs ≡ map (λ x. x) xs
map_same [] = refl
map_same (x ∷ xs) = λ i. x ∷ map_same xs i

count_none {ℓ} : {A : Type ℓ} (xs : List A) → count_where (λ (x : A). false) xs ≡ 0
count_none [] = refl
count_none (x ∷ xs) = count_none xs

-- The updates of the groups, row by row.
expire_groups-rows :
    (day : ℕ → Date) (gs : List Group) (n : ℕ) (ms : List Membership)
    → (expire_groups day gs n ms).1 ≡ map (λ m. if in_groups day gs m then expire m else m) ms
unfolding expire_groups in_groups any
expire_groups-rows day [] n ms = map_same ms
expire_groups-rows day (g ∷ gs) n ms =
    expire_groups-rows day gs _ _
    ∙ two_writes (is_over (day g.timezone) g.branches) (in_groups day gs) expire
        (in_groups-expire day gs) ms

expire_groups-count :
    (day : ℕ → Date) (gs : List Group) (n : ℕ) (ms : List Membership)
    → (expire_groups day gs n ms).0 ≡ n + count_where (in_groups day gs) ms
unfolding expire_groups in_groups any
expire_groups-count day [] n ms = rw (count_none ms) (omega arith)
expire_groups-count day (g ∷ gs) n ms =
    let over = is_over (day g.timezone) g.branches in
    omega (
      arith,
      expire_groups-count day gs (n + count_where over ms) (update_where over expire ms),
      two_counts over (in_groups day gs) expire (in_groups-expire day gs) ms,
    )

update_where-map {ℓ} :
    {A : Type ℓ} (p : A → Bool) (f : A → A) (xs : List A)
    → update_where p f xs ≡ map (λ x. if p x then f x else x) xs
update_where-map p f [] = refl
update_where-map p f (x ∷ xs) = λ i. (if p x then f x else x) ∷ update_where-map p f xs i

-- The business day of a branch.
abbrev pub branch_day : (ℕ → ℕ) → (ℕ → Date) → ℕ → Date
branch_day zone day id = day (zone id)

-- The groups of the job are the branches that it reads.
groups-eq :
    (zone : ℕ → ℕ) (day : ℕ → Date) (bs : List Branch)
    → in_groups day (by_timezone zone bs []) ≡ is_over_in (branch_day zone day) bs
unfolding in_groups any
groups-eq zone day bs = fun_ext (λ m. by_timezone-in_groups zone day bs [] m ∙ or_false _)
  where
    or_false : (b : Bool) → b || false ≡ b
    or_false true = refl
    or_false false = refl

-- The rows and the count after the two updates of the job.
expire_all :
    (day : ℕ → Date) (gs : List Group) (ms : List Membership) {over : Membership → Bool}
    → in_groups day gs ≡ over
    → (update_where is_exhausted expire (expire_groups day gs 0 ms).1
        ≡ map (λ m. if over m || is_exhausted m then expire m else m) ms)
      × ((expire_groups day gs 0 ms).0 + count_where is_exhausted (expire_groups day gs 0 ms).1
          ≡ count_where (λ m. over m || is_exhausted m) ms)
expire_all day gs ms {over} e =
    let written : (expire_groups day gs 0 ms).1 ≡ update_where over expire ms =
      expire_groups-rows day gs 0 ms ∙ rw e (sym (update_where-map over expire ms)) in
    let counted : (expire_groups day gs 0 ms).0 ≡ count_where over ms =
      expire_groups-count day gs 0 ms ∙ rw e (omega arith) in
    rw (written, counted)
      (
        update_where-map is_exhausted expire (update_where over expire ms)
            ∙ two_writes over is_exhausted expire (λ x. refl) ms,
        two_counts over is_exhausted expire (λ x. refl) ms,
      )

-- The job, which updates the periods of all branches of a time zone at once and then the packs of
-- classes, does to each period what a reading of the rule does: it expires exactly if it is active
-- and its last day is before the business day of its branch, an active one, or it is an active pack
-- without an end that is used up. The number reported is the number of these periods.
pub expire_memberships_by_row :
    (zone : ℕ → ℕ) (day : ℕ → Date) (db : Db)
    → ((expire_memberships zone day db).1.memberships
        ≡ map
            (expire_row (branch_day zone day) (find_many is_processed db.branches))
            db.memberships)
      × ((expire_memberships zone day db).0.memberships_expired
          ≡ count_where
              (λ m.
                is_over_in (branch_day zone day) (find_many is_processed db.branches) m
                || is_exhausted m)
              db.memberships)
unfolding expire_memberships expire_row
expire_memberships_by_row zone day db =
    let branches = find_many is_processed db.branches in
    expire_all day (by_timezone zone branches []) db.memberships (groups-eq zone day branches)
