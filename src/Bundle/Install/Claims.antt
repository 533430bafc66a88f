-- ===== src/Bundle/Install/Claims.antt =====
-- What a claim knows of the lists of the other bundles: exactly the paths that they hold.
use detc.Base.{
  ◌≡◌, ◌∙◌, refl, sym, ap, subst, true, ◌⊎◌, inl, inr, none, some, List, [], ◌∷◌, ok, ◌>>=◌, Text,
  text_eq, text_eq_iff, Has, All-Has, Bool-cases, Option-cases, Result-cases, >>=-eq-ok, arith,
}
use detc.Base.Dict.{Dict, find_in, put_in, find_in-put_in}
use detc.Archive.Format.{Tar}
use detc.Bundle.Place.{installed_path, kept_path, named_well}
use detc.Bundle.Disk.{
  File, Disk, Host, files_suffix, installed_dir, kept_dir, names, read_text, recorded,
  recorded_text,
}
use detc.Bundle.Disk.Steps.{Holds}
use detc.Bundle.Disk.Names.{names-WellNamed, installed_names, kept_names}
use detc.Bundle.Open.{Crates, installed_state, kept_state}
use detc.Bundle.Install.{claim_all, claims_in, claimed, taken_by, claim_paths}

-- What a list is read as.
recorded-text :
    (host : Host) (path : Text) (d : Disk) (ps : List Text)
    → recorded host path d ≡ ok ps
    → ps ≡ recorded_text (find_in path d)
unfolding recorded read_text
recorded-text host path d ps h = elim (Bool-cases (host.no_read d path)) [
  | inl e ↦ absurd (ground (arith, rw (recorded, e) at h))
  | inr e ↦ sym (ground (arith, rw (recorded, e) at h))
]

claim_all_sound :
    (name p b : Text) (ps : List Text) (m : Dict Text)
    → find_in p (claim_all name ps m) ≡ some b
    → (find_in p m ≡ some b) ⊎ ((b ≡ name) × Has p ps)
claim_all_sound name p b [] m h = inl h
claim_all_sound name p b (q ∷ ps) m h = elim (claim_all_sound name p b ps (put_in q name m) h) [
  | inr (e, k) ↦ inr (e, inr k)
  | inl k ↦ elim (Bool-cases (text_eq q p)) [
    | inl e ↦
        inr (
          ground (arith, rw (find_in-put_in q p name m, e) at k),
          inl (sym ((text_eq_iff q p).0 e)),
        )
    | inr e ↦ inl (rw (find_in-put_in q p name m, e) at k)
  ]
]

-- A path that somebody claims.
abbrev pub Claimed : Text → Dict Text → Type 0
Claimed p m = (b : Text) × (find_in p m ≡ some b)

put_in-Claimed :
    (q p name : Text) (m : Dict Text)
    → (text_eq q p ≡ true) ⊎ Claimed p m
    → Claimed p (put_in q name m)
put_in-Claimed q p name m h = elim (Bool-cases (text_eq q p)) [
  | inl e ↦ (name, rw (find_in-put_in q p name m, e) refl)
  | inr e ↦ elim h [
    | inl k ↦ absurd (ground (arith, e, k))
    | inr (b, k) ↦ (b, rw (find_in-put_in q p name m, e) k)
  ]
]

claim_all-Claimed :
    (name p : Text) (ps : List Text) (m : Dict Text)
    → Has p ps ⊎ Claimed p m
    → Claimed p (claim_all name ps m)
claim_all-Claimed name p [] m (inl h) = absurd h
claim_all-Claimed name p [] m (inr h) = h
claim_all-Claimed name p (q ∷ ps) m (inl (inl e)) =
    claim_all-Claimed name p ps (put_in q name m)
      (inr (put_in-Claimed q p name m (inl ((text_eq_iff q p).1 (sym e)))))
claim_all-Claimed name p (q ∷ ps) m (inl (inr h)) =
    claim_all-Claimed name p ps (put_in q name m) (inl h)
claim_all-Claimed name p (q ∷ ps) m (inr h) =
    claim_all-Claimed name p ps (put_in q name m) (inr (put_in-Claimed q p name m (inr h)))

-- The list of a bundle, by where it is.
abbrev listed_at : (Text → Text → Text) → Text → Disk → List Text
listed_at at name d = recorded_text (find_in (at name files_suffix) d)

abbrev From : (Text → Text → Text) → List Text → Disk → Text → Text → Type 0
From at ns d p b = Has b ns × Has p (listed_at at b d)

-- A list with a path in it is there.
list_there :
    (list p : Text) (d : Disk)
    → Has p (recorded_text (find_in list d))
    → (f : File) × (find_in list d ≡ some f)
unfolding recorded_text
list_there list p d h = elim (Option-cases (find_in list d)) [
  | inl e ↦ absurd (rw e at h)
  | inr k ↦ k
]

nothing_found : (p b : Text) → ¬ (find_in p [] ≡ some b)
unfolding find_in
nothing_found p b g = cc

found_none : {c : Text} → ¬ (none ≡ some c)
found_none g = cc

same_found : (b c : Text) → some b ≡ some c → b ≡ c
same_found b c g = ground (arith, g)

module _ (tar : Tar) (host : Host) (crates : Crates tar) where
  claims_in_sound :
      (at : Text → Text → Text) (p b : Text) (ns : List Text) (d : Disk) (before m : Dict Text)
      → claims_in tar host crates at ns d before ≡ ok m
      → find_in p m ≡ some b
      → (find_in p before ≡ some b) ⊎ From at ns d p b
  unfolding claims_in
  claims_in_sound at p b [] d before m h k = inl (ap (find_in p) (ground (arith, h)) ∙ k)
  claims_in_sound at p b (n ∷ ns) d before m h k =
      let (ps, e, later) =
        >>=-eq-ok (recorded host (at n files_suffix) d)
          (λ paths. claims_in tar host crates at ns d (claim_all n paths before)) h in
      elim (claims_in_sound at p b ns d (claim_all n ps before) m later k) [
        | inr (x, y) ↦ inr (inr x, y)
        | inl f ↦ elim (claim_all_sound n p b ps before f) [
          | inl g ↦ inl g
          | inr (g, y) ↦ inr (
            inl g,
            subst (λ c. Has p (listed_at at c d)) (sym g)
                (subst (Has p) (recorded-text host (at n files_suffix) d ps e) y),
          )
        ]
      ]

  claims_in_covers :
      (at : Text → Text → Text) (p a : Text) (ns : List Text) (d : Disk) (before m : Dict Text)
      → claims_in tar host crates at ns d before ≡ ok m
      → Claimed p before ⊎ From at ns d p a
      → Claimed p m
  unfolding claims_in
  claims_in_covers at p a [] d before m h (inl (b, k)) =
      (b, ap (find_in p) (sym (ground (arith, h))) ∙ k)
  claims_in_covers at p a [] d before m h (inr (x, y)) = absurd x
  claims_in_covers at p a (n ∷ ns) d before m h k =
      let (ps, e, later) =
        >>=-eq-ok (recorded host (at n files_suffix) d)
          (λ paths. claims_in tar host crates at ns d (claim_all n paths before)) h in
      let go = claims_in_covers at p a ns d (claim_all n ps before) m later in
      elim k [
        | inl c ↦ go (inl (claim_all-Claimed n p ps before (inr c)))
        | inr (inl x, y) ↦ go (
            inl (
              claim_all-Claimed n p ps before (
                inl (
                  subst (Has p) (sym (recorded-text host (at n files_suffix) d ps e))
                    (subst (λ c. Has p (listed_at at c d)) x y)))))
        | inr (inr x, y) ↦ go (inr (x, y))
      ]

  pub claimed_sound :
      (p b : Text) (d : Disk) (m : Dict Text)
      → claimed tar host crates d ≡ ok m
      → find_in p m ≡ some b
      → Holds d b p × (named_well b ≡ true)
  unfolding claimed
  claimed_sound p b d m h k =
      let (kept, e, h1) =
        >>=-eq-ok (names host kept_dir files_suffix d)
          (λ ks. claims_in tar host crates kept_path ks d [] >>= λ m1.
            names host installed_dir files_suffix d >>= λ ns.
            claims_in tar host crates installed_path ns d m1)
          h in
      let (m1, e1, h2) =
        >>=-eq-ok (claims_in tar host crates kept_path kept d [])
          (λ m1. names host installed_dir files_suffix d >>= λ ns.
            claims_in tar host crates installed_path ns d m1)
          h1 in
      let (ns, e2, h3) =
        >>=-eq-ok (names host installed_dir files_suffix d)
          (λ ns. claims_in tar host crates installed_path ns d m1) h2 in
      elim (claims_in_sound installed_path p b ns d m1 m h3 k) [
        | inr (x, y) ↦ (
          inl y,
          All-Has (λ n. named_well n ≡ true) b ns
              (names-WellNamed host installed_dir files_suffix d ns e2) x,
        )
        | inl f ↦ elim (claims_in_sound kept_path p b kept d [] m1 e1 f) [
          | inl g ↦ absurd (nothing_found p b g)
          | inr (x, y) ↦ (
            inr y,
            All-Has (λ n. named_well n ≡ true) b kept
                (names-WellNamed host kept_dir files_suffix d kept e) x,
          )
        ]
      ]

  pub claimed_covers :
      (p a : Text) (d : Disk) (m : Dict Text)
      → claimed tar host crates d ≡ ok m
      → named_well a ≡ true
      → Holds d a p
      → Claimed p m
  unfolding claimed
  claimed_covers p a d m h w k =
      let (kept, e, h1) =
        >>=-eq-ok (names host kept_dir files_suffix d)
          (λ ks. claims_in tar host crates kept_path ks d [] >>= λ m1.
            names host installed_dir files_suffix d >>= λ ns.
            claims_in tar host crates installed_path ns d m1)
          h in
      let (m1, e1, h2) =
        >>=-eq-ok (claims_in tar host crates kept_path kept d [])
          (λ m1. names host installed_dir files_suffix d >>= λ ns.
            claims_in tar host crates installed_path ns d m1)
          h1 in
      let (ns, e2, h3) =
        >>=-eq-ok (names host installed_dir files_suffix d)
          (λ ns. claims_in tar host crates installed_path ns d m1) h2 in
      elim k [
        | inl x ↦
            let (f, there) = list_there (installed_path a files_suffix) p d x in
            claims_in_covers installed_path p a ns d m1 m h3
              (inr (installed_names host a f d ns w e2 there, x))
        | inr x ↦
            let (f, there) = list_there (kept_path a files_suffix) p d x in
            claims_in_covers installed_path p a ns d m1 m h3 (
              inl (
                claims_in_covers kept_path p a kept d [] m1 e1
                  (inr (kept_names host a f d kept w e there, x))))
      ]

  taken_by-fails :
      (d : Disk) (name path other : Text) → ¬ (taken_by tar host crates d name path other ≡ ok tt)
  unfolding taken_by
  taken_by-fails d name path other h =
      elim (Result-cases (installed_state tar host crates other d)) [
        | inr (x, e) ↦ absurd (ground (arith, rw (taken_by, e) at h))
        | inl (none, e) ↦ elim (Result-cases (kept_state tar host crates other d)) [
          | inr (x, f) ↦ absurd (ground (arith, rw (taken_by, e, f) at h))
          | inl (none, f) ↦ absurd (ground (arith, rw (taken_by, e, f) at h))
          | inl (some b, f) ↦ absurd (ground (arith, rw (taken_by, e, f) at h))
        ]
        | inl (some b, e) ↦ absurd (ground (arith, rw (taken_by, e) at h))
      ]

  pub claim_paths-own :
      (d : Disk) (name p b : Text) (w : List Text) (m : Dict Text)
      → claim_paths tar host crates d name w m ≡ ok tt
      → Has p w
      → find_in p m ≡ some b
      → b ≡ name
  unfolding claim_paths
  claim_paths-own d name p b [] m h x k = absurd x
  claim_paths-own d name p b (q ∷ w) m h x k = elim (Option-cases (find_in q m)) [
    | inl e ↦ elim x [
      | inl y ↦ absurd (found_none (sym e ∙ ap (λ t. find_in t m) (sym y) ∙ k))
      | inr y ↦ claim_paths-own d name p b w m (rw (claim_paths, e) at h) y k
    ]
    | inr (other, e) ↦ elim (Bool-cases (text_eq other name)) [
      | inr f ↦ absurd (taken_by-fails d name q other (rw (claim_paths, e, f) at h))
      | inl f ↦ elim x [
        | inl y ↦
            same_found b other (sym k ∙ ap (λ t. find_in t m) y ∙ e) ∙ (text_eq_iff other name).0 f
        | inr y ↦ claim_paths-own d name p b w m (rw (claim_paths, e, f) at h) y k
      ]
    ]
  ]
