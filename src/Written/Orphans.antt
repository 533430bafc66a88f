-- ===== src/Written/Orphans.antt =====
-- What is an orphan, and which one may be taken away, in src/written.rs.
use detc.Base.{
  ◌≡◌, refl, sym, ap, ◌∙◌, subst, false, ◌⊎◌, inl, inr, Option, none, some, List, [], ◌∷◌, ◌++◌,
  Text, text_eq, text_eq_iff, arith, Has, Bool-cases, Option-cases, if◌then◌else◌,
}
use detc.Base.Dict.{Dict, find_in, find_in-put_in}
use detc.Value.{Fields}
use detc.Hosts.Range.{split_once}
use detc.Apply.Naming.{digest}
use detc.Written.{
  File, Resource, Written, Declared, State, as_written, unknown, Orphan, orphan_file,
  orphan_resource, System, listed, purgeable, file_state, join_path, Schemas, schema_of, read_state,
  state_of, orphan_resources, orphan_files, orphans,
}

Has-append : {A : Type 0} (x : A) (xs ys : List A) → Has x (xs ++ ys) → Has x xs ⊎ Has x ys
Has-append x [] ys h = inr h
Has-append x (z ∷ xs) ys (inl e) = inl (inl e)
Has-append x (z ∷ xs) ys (inr h) = elim (Has-append x xs ys h) [
  | inl a ↦ inl (inr a)
  | inr b ↦ inr b
]

-- A resource that nothing declares, asked about with the schema of its type whether or not another
-- resource of the type was asked about before.
unfoldable pub asked_state : System → Text → Resource → State
unfolding split_once read_state
asked_state sys k r = elim (split_once b'/' k) [
  | none ↦ unknown
  | some (kind, name) ↦
      if sys.find kind then read_state sys kind name r.desired (sys.schema kind) else unknown
]

unfoldable pub asked_orphans : System → List Text → Dict Resource → List Orphan
unfolding asked_state
asked_orphans sys declared [] = []
asked_orphans sys declared ((k, r) ∷ rest) =
    let later = asked_orphans sys declared rest in
    if listed k declared then later else orphan_resource k r.source (asked_state sys k r) ∷ later

-- What is kept of the schemas is what the providers answer.
IsCache : System → Schemas → Type 0
IsCache sys schemas =
    (kind : Text) (s : Option (Fields → Fields))
    → find_in kind schemas ≡ some s
    → s ≡ sys.schema kind

schema_of-IsCache :
    (sys : System) (kind : Text) (schemas : Schemas)
    → IsCache sys schemas
    → ((schema_of sys kind schemas).0 ≡ sys.schema kind)
      × IsCache sys (schema_of sys kind schemas).1
unfolding schema_of IsCache
schema_of-IsCache sys kind schemas c = elim (Option-cases (find_in kind schemas)) [
  | inr (s, e) ↦ rw (e, schema_of) (c kind s e, c)
  | inl e ↦
      rw (e, schema_of)
        (
          refl,
          λ j s h. elim (Bool-cases (text_eq kind j)) [
            | inl q ↦ ground (
              arith,
              h,
              find_in-put_in kind j (sys.schema kind) schemas,
              q,
              ap sys.schema ((text_eq_iff kind j).0 q),
            )
            | inr q ↦ c j s (ground (arith, h, find_in-put_in kind j (sys.schema kind) schemas, q))
          ],
        )
]

state_of-IsCache :
    (sys : System) (k : Text) (r : Resource) (schemas : Schemas)
    → IsCache sys schemas
    → ((state_of sys k r schemas).0 ≡ asked_state sys k r)
      × IsCache sys (state_of sys k r schemas).1
unfolding state_of asked_state
state_of-IsCache sys k r schemas c = elim (Option-cases (split_once b'/' k)) [
  | inl e ↦ rw (e, state_of, asked_state) (refl, c)
  | inr (p, e) ↦ elim (Bool-cases (sys.find p.0)) [
    | inr q ↦ rw (e, q, state_of, asked_state) (refl, c)
    | inl q ↦
        let (same, d) = schema_of-IsCache sys p.0 schemas c in
        rw (e, q, state_of, asked_state) (ap (read_state sys p.0 p.1 r.desired) same, d)
  ]
]

orphan_resources_asked :
    (sys : System) (declared : List Text) (schemas : Schemas) (m : Dict Resource)
    → IsCache sys schemas
    → orphan_resources sys declared schemas m ≡ asked_orphans sys declared m
unfolding orphan_resources asked_orphans
orphan_resources_asked sys declared schemas [] c = refl
orphan_resources_asked sys declared schemas ((k, r) ∷ rest) c =
    elim (Bool-cases (listed k declared)) [
      | inl e ↦ rw (e, orphan_resources) (orphan_resources_asked sys declared schemas rest c)
      | inr e ↦
          let (same, d) = state_of-IsCache sys k r schemas c in
          rw (e, orphan_resources)
            (ground (
              arith,
              same,
              orphan_resources_asked sys declared (state_of sys k r schemas).1 rest d,
            ))
    ]

differ_options : {A : Type 0} {a : A} → ¬ (◌≡◌ {A = Option A} none (some a))
differ_options h = cc

purgeable_file :
    (path k source : Text) (s : State) (found : Text)
    → purgeable (orphan_file path k source s) ≡ some found
    → (s ≡ as_written) × (found ≡ path)
unfolding purgeable
purgeable_file path k source as_written found h = (refl, ground (arith, h))
purgeable_file path k source _ found h = absurd (differ_options h)

module _ (root : Text) (sha256 : Text → Text) where
  -- The orphans are the files that nothing declares and the resources that nothing declares,
  -- where each resource is asked about with the schema that its provider answers: that schemas
  -- are kept between resources makes no difference.
  pub orphans_asked :
      (sys : System) (declared : Declared) (w : Written)
      → orphans root sha256 sys declared w
        ≡ orphan_files root sha256 sys declared.files w.files
          ++ asked_orphans sys declared.resources w.resources
  unfolding orphans
  orphans_asked sys declared w =
      ap (λ t. orphan_files root sha256 sys declared.files w.files ++ t)
        (orphan_resources_asked sys declared.resources [] w.resources
          (unfold IsCache in λ kind s h. absurd (none_of kind s h)))
    where
      none_of : (kind : Text) (s : Option (Fields → Fields)) → ¬ (find_in kind [] ≡ some s)
      none_of kind s h = unfold find_in in (cc)

  -- What the record holds of a file that may be taken away.
  pub record IsOurs (sys : System) (declared : List Text) (m : Dict File) (path : Text)
      : Type 0 where
    pub key : Text
    pub entry : File
    pub content : Text
    pub recorded : Has (key, entry) m
    pub undeclared : listed key declared ≡ false
    pub at_key : path ≡ join_path root key
    pub held : sys.read path ≡ some content
    pub as_recorded : digest sha256 content ≡ entry.digest

  as_written_file :
      (sys : System) (path : Text) (f : File)
      → file_state root sha256 sys path f ≡ as_written
      → (content : Text) × (sys.read path ≡ some content) × (digest sha256 content ≡ f.digest)
  unfolding file_state
  as_written_file sys path f h = elim (Option-cases (sys.read path)) [
    | inr (content, e) ↦ (
      content,
      e,
      ground (arith, text_eq_iff (digest sha256 content) f.digest, rw (e, file_state) at h),
    )
    | inl e ↦ elim (Bool-cases (sys.exists path)) [
      | inl q ↦ absurd (ground (arith, rw (e, q, file_state) at h))
      | inr q ↦ absurd (ground (arith, rw (e, q, file_state) at h))
    ]
  ]

  further :
      {sys : System} {declared : List Text} {m : Dict File} {path : Text} {e : Text × File}
      → IsOurs sys declared m path
      → IsOurs sys declared (e ∷ m) path
  further i = record {
    key = i.key;
    entry = i.entry;
    content = i.content;
    recorded = inr i.recorded;
    undeclared = i.undeclared;
    at_key = i.at_key;
    held = i.held;
    as_recorded = i.as_recorded;
  }

  orphan_files-IsOurs :
      (sys : System) (declared : List Text) (m : Dict File) (o : Orphan) (path : Text)
      → Has o (orphan_files root sha256 sys declared m)
      → purgeable o ≡ some path
      → IsOurs sys declared m path
  unfolding orphan_files
  orphan_files-IsOurs sys declared [] o path h p = absurd h
  orphan_files-IsOurs sys declared ((k, f) ∷ rest) o path h p =
      elim (Bool-cases (listed k declared)) [
        | inl e ↦ further (orphan_files-IsOurs sys declared rest o path (rw e at h) p)
        | inr e ↦ elim (rw e at h) [
          | inr later ↦ further (orphan_files-IsOurs sys declared rest o path later p)
          | inl same ↦
              let (written, at) =
                purgeable_file (join_path root k) k f.template
                  (file_state root sha256 sys (join_path root k) f) path
                  (ap purgeable (sym same) ∙ p) in
              let (content, held, digested) = as_written_file sys (join_path root k) f written in
              record {
                key = k;
                entry = f;
                content = content;
                recorded = inl refl;
                undeclared = e;
                at_key = at;
                held = ap sys.read at ∙ held;
                as_recorded = digested;
              }
        ]
      ]

  orphan_resources_stay :
      (sys : System) (declared : List Text) (m : Dict Resource) (o : Orphan)
      → Has o (asked_orphans sys declared m)
      → purgeable o ≡ none
  unfolding asked_orphans purgeable
  orphan_resources_stay sys declared [] o h = absurd h
  orphan_resources_stay sys declared ((k, r) ∷ rest) o h = elim (Bool-cases (listed k declared)) [
    | inl e ↦ orphan_resources_stay sys declared rest o (rw e at h)
    | inr e ↦ elim (rw e at h) [
      | inr later ↦ orphan_resources_stay sys declared rest o later
      | inl same ↦ ap purgeable same
    ]
  ]

  -- An orphan that may be taken away is the file of a key that is recorded and not declared any
  -- more, which can be read, and whose content has the digest recorded.
  pub purgeable-IsOurs :
      (sys : System) (declared : Declared) (w : Written) (o : Orphan) (path : Text)
      → Has o (orphans root sha256 sys declared w)
      → purgeable o ≡ some path
      → IsOurs sys declared.files w.files path
  purgeable-IsOurs sys declared w o path h p =
      elim (Has-append o _ (asked_orphans sys declared.resources w.resources)
        (subst (Has o) (orphans_asked sys declared w) h)) [
          | inl a ↦ orphan_files-IsOurs sys declared.files w.files o path a p
          | inr b ↦ absurd (
              differ_options
                (sym (orphan_resources_stay sys declared.resources w.resources o b) ∙ p))
        ]
