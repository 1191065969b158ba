-- ===== src/Crds/Stack/Laws.antt =====
-- The merging of environment variables in crates/servarr-crds/src/v1alpha1/media_stack.rs.
use servarr_operator.Prelude.{
  String, ◌≡◌, refl, ◌∙◌, Option, none, some, List, [], ◌∷◌, ◌==◌, map, eq_iff, arith, Distinct,
  or_option, if◌then◌else◌,
}
use servarr_operator.Prelude.IndexMap.{
  IndexMap, lookup, insert, keys, lookup-insert, lookup_absent, Distinct-insert,
}
use servarr_operator.Crds.Types.Workload.{EnvVar}
use servarr_operator.Crds.Stack.{insert_env, into_env, merge_env}

abbrev pub env_name : EnvVar → String
env_name e = e.name

-- The value of the last variable of that name, which a container sees.
unfoldable pub find_env : String → List EnvVar → Option String
find_env name [] = none
find_env name (e ∷ es) =
    or_option (find_env name es) (if e.name == name then some e.value else none)

lookup-insert_env :
    (name : String) (entries : IndexMap String) (es : List EnvVar)
    → lookup name (insert_env entries es) ≡ or_option (find_env name es) (lookup name entries)
unfolding insert_env find_env
lookup-insert_env name entries [] = refl
lookup-insert_env name entries (e ∷ es) = ground (
  arith,
  lookup-insert_env name (insert e.name e.value entries) es,
  lookup-insert e.name name e.value entries,
)

insert_env-Distinct :
    (entries : IndexMap String) (es : List EnvVar)
    → Distinct (keys entries)
    → Distinct (keys (insert_env entries es))
unfolding insert_env
insert_env-Distinct entries [] d = d
insert_env-Distinct entries (e ∷ es) d =
    insert_env-Distinct (insert e.name e.value entries) es
      (Distinct-insert e.name e.value entries d)

names-into_env : (entries : IndexMap String) → map env_name (into_env entries) ≡ keys entries
names-into_env [] = refl
names-into_env ((name, value) ∷ rest) = cc (names-into_env rest)

find_env-into_env :
    (name : String) (entries : IndexMap String)
    → Distinct (keys entries)
    → find_env name (into_env entries) ≡ lookup name entries
unfolding find_env lookup
find_env-into_env name [] d = refl
find_env-into_env name ((first, value) ∷ rest) d =
    ground (arith, find_env-into_env name rest d.1, eq_iff first name, lookup_absent name rest)

-- The variables of a merge have different names, and each name has the value that the overrides
-- give it last, or else the one that the defaults give it last.
pub merge_env_lem :
    (defaults overrides : List EnvVar) (name : String)
    → Distinct (map env_name (merge_env defaults overrides))
      × (find_env name (merge_env defaults overrides)
          ≡ or_option (find_env name overrides) (find_env name defaults))
unfolding merge_env lookup
merge_env_lem defaults overrides name =
    let distinct =
      insert_env-Distinct (insert_env [] defaults) overrides (insert_env-Distinct [] defaults tt) in
    (
      rw (names-into_env (insert_env (insert_env [] defaults) overrides)) distinct,
      find_env-into_env name (insert_env (insert_env [] defaults) overrides) distinct
          ∙ ground (
            arith,
            lookup-insert_env name (insert_env [] defaults) overrides,
            lookup-insert_env name [] defaults,
          ),
    )
