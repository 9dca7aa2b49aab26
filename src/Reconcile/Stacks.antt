-- ===== src/Reconcile/Stacks.antt =====
-- Sets of stacks by project name (internal/reconcile/reconcile.go).
use compose_lock.Prelude.{
  String, Option, none, some, List, [], ◌∷◌, ◌++◌, map, ◌==◌, contains, sort, keys, if◌then◌else◌,
}
use compose_lock.Compose.{Stack, Project}

unfoldable pub stack_names : List Stack → List String
stack_names = map (λ s. s.project_name)

-- A stack known only by its name.
abbrev pub named : String → Stack
named name = record { project_name = name; dir = none; files = [] }

add_names : List String → List String → List Stack
add_names seen [] = []
add_names seen (n ∷ ns) =
    let rest = add_names seen ns in
    let more = named n ∷ add_names (n ∷ seen) ns in if contains seen n then rest else more

-- `deployedStacks`, from `st.LastHealthyStacks`: what is discovered, and behind it what was healthy
-- last and is not among it.
unfoldable pub deployed_stacks : List String → List Stack → List Stack
unfolding add_names
deployed_stacks last_healthy discovered =
    discovered ++ add_names (stack_names discovered) last_healthy

-- Of two stacks with one name the later one is found.
find_stack : String → List Stack → Option Stack
find_stack n [] = none
find_stack n (s ∷ ss) =
    let later = find_stack n ss in
    elim later [ some t ↦ some t | none ↦ if s.project_name == n then some s else none ]

stack_or_named : List Stack → String → Stack
unfolding find_stack
stack_or_named stacks n = elim (find_stack n stacks) [ some s ↦ s | none ↦ named n ]

unfoldable pub restrict_to_names : List Stack → List String → List Stack
unfolding stack_or_named
restrict_to_names stacks [] = stacks
restrict_to_names stacks (n ∷ ns) = map (stack_or_named stacks) (n ∷ ns)

-- The stacks of the second list whose names are in the first.
unfoldable pub keep_named : List String → List Stack → List Stack
keep_named names [] = []
keep_named names (s ∷ ss) =
    let rest = keep_named names ss in if contains names s.project_name then s ∷ rest else rest

unfoldable pub drop_named : List String → List Stack → List Stack
drop_named names [] = []
drop_named names (s ∷ ss) =
    let rest = drop_named names ss in if contains names s.project_name then rest else s ∷ rest

unfoldable pub intersect_by_project_name : List Stack → List Stack → List Stack
unfolding keep_named
intersect_by_project_name a b = keep_named (stack_names b) a

unfoldable pub vanished_stacks : List Stack → List Stack → List Stack
unfolding drop_named
vanished_stacks previous current = drop_named (stack_names current) previous

unfoldable pub report_stacks : String → List String → List String
report_stacks compose_dir names = if compose_dir == "" then [] else names

unfoldable pub service_names : Project → List String
service_names project = sort (keys project.services)
