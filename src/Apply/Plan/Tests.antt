-- ===== src/Apply/Plan/Tests.antt =====
-- Small plans, and the theorems about `Plan` of src/apply.rs at concrete inputs.
use detc.Base.{
  ◌≡◌, refl, true, false, ok, none, some, List, [], ◌∷◌, map, Text, codes, text_eq, pos,
}
use detc.Value.{null, end}
use detc.Var.Rfc7396.{rfc7396}
use detc.Resource.Tests.{sevens}
use detc.Written.{Written, System, record_change, wrote}
use detc.Apply.Naming.{files_key}
use detc.Apply.Requirement.{unmet}
use detc.Apply.Change.{Change, create, in_sync, broken, resource, requirement}
use detc.Apply.Plan.{content_of, TargetFile, template_change}
use detc.Apply.Plan.Build.{Tools, checked}
use detc.Apply.Plan.Converges.{file_after, template_change-remove, template_change_again}
use detc.Apply.Plan.Accepted.{unmet-checked}

abbrev identity : Text → Text
identity t = t

abbrev slash : Text
slash = codes "/"

abbrev motd : Text
motd = codes "/etc/motd"

abbrev hi : TargetFile
hi = record { text = some (codes "hi"); exists = true }

-- detc wrote the message of the day.
abbrev ours : Written
ours = record {
  files = (codes "etc/motd", record { digest = codes "sha256:hi"; template = codes "motd" }) ∷ [];
  resources = [];
}

abbrev machine : System
machine = record {
  read = λ path. none;
  exists = λ path. false;
  find = λ kind. false;
  schema = λ kind. none;
  inspect = λ kind name desired. none;
}

template_change-remove_example :
    (content_of (codes " ") ≡ none)
    × ((current : Text) × (some (codes "hi") ≡ some current)
        × (wrote slash identity (files_key slash motd) current ours ≡ true))
unfolding template_change text_eq
template_change-remove_example =
    template_change-remove slash identity ours (codes "motd") motd hi (codes " ") refl

template_change_again_example :
    (template_change slash identity
      (record_change slash identity machine
        (template_change slash identity ours (codes "motd") motd hi (codes " "))
        ours)
      (codes "motd")
      motd
      (file_after
        (template_change slash identity ours (codes "motd") motd hi (codes " ")).action
        (content_of (codes " "))
        hi)
      (codes " ")).action
    ≡ in_sync
template_change_again_example =
    template_change_again slash identity machine ours (codes "motd") motd hi (codes " ")

-- The crate json-patch applies nothing here.
abbrev tools : Tools
tools = record {
  root = slash;
  sha256 = identity;
  numbers = sevens;
  patch = rfc7396;
  invalid = λ id e. id;
  cannot_merge = λ e. codes "merge";
  because = λ why. codes "requires";
  parse = λ t. ok null;
  refused = λ e. codes "declaration";
}

-- A needs B, which needs C, and nothing is C.
abbrev needy : Text → List Text → Change
needy id requires = record {
  kind = codes "pkg";
  name = id;
  id = id;
  source = [];
  order = pos 10;
  action = create;
  requires = requires;
  error = none;
  skipped = none;
  target = resource end none end;
}

abbrev chain : List Change
chain = needy (codes "b") (codes "c" ∷ []) ∷ needy (codes "d") (codes "b" ∷ []) ∷ []

checked-chain : map (λ c. c.action) (checked tools true chain) ≡ broken ∷ broken ∷ []
unfolding checked text_eq requirement
checked-chain = refl

unmet-checked_example : unmet (map requirement (checked tools true chain)) true ≡ []
unmet-checked_example = unmet-checked tools true chain
