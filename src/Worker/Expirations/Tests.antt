-- ===== src/Worker/Expirations/Tests.antt =====
-- The daily expiry on the sample gym, whose period ended on 14 February.
use pulso_crm.Prelude.{◌≡◌, refl, none, some, ◌∷◌, [], map, ℕ, find_many, count_where, ◌||◌}
use pulso_crm.Calendar.{date}
use pulso_crm.Store.{Db, Membership, MembershipStatus}
use pulso_crm.Store.Sample.{sample_db, sample_membership}
use pulso_crm.Worker.Expirations.{
  expire_memberships, is_processed, is_exhausted, add_to_group, by_timezone, expire_groups,
}
use pulso_crm.Worker.Expirations.ByRow.{
  is_over_in, expire_row, branch_day, expire_memberships_by_row,
}

-- A pack of classes that is used up.
abbrev pack : Membership
pack = record sample_membership { id = 60; end_date = none; classes_remaining = some 0 }

abbrev packs_db : Db
packs_db = record sample_db { memberships = sample_membership ∷ pack ∷ [] }

abbrev one_zone : ℕ → ℕ
one_zone branch_id = 3

-- On its last day a period is still valid.
last_day :
    map (λ m. m.status) (expire_memberships one_zone (λ z. date 2026 2 14) packs_db).1.memberships
    ≡ MembershipStatus.active ∷ MembershipStatus.expired ∷ []
unfolding add_to_group by_timezone expire_groups expire_memberships
last_day = refl

next_day_over :
    (expire_memberships one_zone (λ z. date 2026 2 15) packs_db).0.memberships_expired ≡ 2
unfolding add_to_group by_timezone expire_groups expire_memberships
next_day_over = refl

expire_memberships_by_row_example :
    ((expire_memberships one_zone (λ z. date 2026 2 15) packs_db).1.memberships
      ≡ map
          (expire_row
            (branch_day one_zone (λ z. date 2026 2 15))
            (find_many is_processed packs_db.branches))
          packs_db.memberships)
    × ((expire_memberships one_zone (λ z. date 2026 2 15) packs_db).0.memberships_expired
        ≡ count_where
            (λ m.
              is_over_in
                (branch_day one_zone (λ z. date 2026 2 15))
                (find_many is_processed packs_db.branches)
                m
              || is_exhausted m)
            packs_db.memberships)
expire_memberships_by_row_example =
    expire_memberships_by_row one_zone (λ z. date 2026 2 15) packs_db
