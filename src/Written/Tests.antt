-- ===== src/Written/Tests.antt =====
-- A record of two files, and the theorems about src/written.rs at concrete inputs.
use detc.Base.{
  ◌≡◌, refl, true, ◌||◌, none, some, [], ◌∷◌, ◌++◌, Text, codes, text_eq, inl, inr, if◌then◌else◌,
  pos,
}
use detc.Value.{bool, object, end, field}
use detc.Apply.Naming.{files_key}
use detc.Apply.Change.{Change, update, create, template, resource}
use detc.Written.{
  File, Written, Declared, as_written, Orphan, orphan_file, System, Instantiated, purgeable,
  instantiated, orphan_files, orphans, record_plan, wrote,
}
use detc.Written.Orphans.{IsOurs, asked_orphans, orphans_asked, purgeable-IsOurs}
use detc.Written.Recorded.{wrote-record_plan}

abbrev identity : Text → Text
identity t = t

abbrev slash : Text
slash = codes "/"

-- The message of the day was left alone, the list of hosts was changed.
abbrev machine : System
machine = record {
  read = λ path. if text_eq path (codes "/etc/motd") then some (codes "hi") else none;
  exists = λ path. text_eq path (codes "/etc/motd") || text_eq path (codes "/etc/hosts");
  find = λ kind. text_eq kind (codes "pkg");
  schema = λ kind. some (λ m. m);
  inspect = λ kind name desired. some (some (object desired));
}

abbrev motd : File
motd = record { digest = codes "sha256:hi"; template = codes "etc/detc/templates/etc/motd" }

abbrev old : Written
old = record {
  files = (codes "etc/hosts", motd) ∷ (codes "etc/motd", motd) ∷ [];
  resources =
      (
        codes "pkg/nginx",
        record { desired = field (codes "installed") (bool true) end; source = codes "pkg" },
      )
      ∷ (codes "pkg/vim", record { desired = end; source = codes "pkg" })
      ∷ [];
}

abbrev nothing_declared : Declared
nothing_declared = record { files = []; resources = [] }

orphans_asked_example :
    orphans slash identity machine nothing_declared old
    ≡ orphan_files slash identity machine [] old.files ++ asked_orphans machine [] old.resources
orphans_asked_example = orphans_asked slash identity machine nothing_declared old

abbrev motd_orphan : Orphan
motd_orphan =
    orphan_file (codes "/etc/motd") (codes "etc/motd") (codes "etc/detc/templates/etc/motd")
      as_written

purgeable-IsOurs_example : IsOurs slash identity machine [] old.files (codes "/etc/motd")
unfolding orphans text_eq purgeable
purgeable-IsOurs_example =
    purgeable-IsOurs slash identity machine nothing_declared old motd_orphan (codes "/etc/motd")
      (inr (inl refl)) refl

abbrev greeting : Change
greeting = record {
  kind = codes "template";
  name = codes "/etc/motd";
  id = codes "template/etc/motd";
  source = codes "/etc/detc/templates/etc/motd";
  order = pos 500;
  action = update;
  requires = [];
  error = none;
  skipped = none;
  target = template (codes "/etc/motd") (some (codes "hi")) (some (codes "hello"));
}

abbrev nginx : Change
nginx = record greeting {
  kind = codes "pkg";
  id = codes "pkg/nginx";
  action = create;
  target = resource end none end;
}

abbrev told : Instantiated
told = record {
  path = codes "/etc/motd";
  template = codes "/etc/detc/templates/etc/motd";
  content = some (codes "hello");
}

wrote-record_plan_example :
    wrote slash identity
      (codes "etc/motd")
      (codes "hello")
      (record_plan slash identity machine (nginx ∷ greeting ∷ nginx ∷ []) old)
    ≡ true
unfolding instantiated text_eq files_key
wrote-record_plan_example =
    wrote-record_plan slash identity machine (nginx ∷ []) (nginx ∷ []) greeting old told
      (codes "hello") refl refl refl refl (refl, tt)
