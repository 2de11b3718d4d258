-- ===== src/Agents/Authority.antt =====
-- agents/registry.py with `_has_exact_permission` of tool_gateway/service.py: which permissions an
-- agent has after calls of the registry.
use ai_hq.Prelude.{
  ℕ, String, Bool, true, false, ◌&&◌, ◌||◌, Option, none, some, Option-cases, List, [], ◌∷◌, ◌++◌,
  str_eq, eq_iff, any, ◌≡◌, refl, sym, ap, ◌∙◌, inl, inr, Bool-cases,
}
use mathlib.Core.Option
use ai_hq.Prelude.Booleans.{or_true, or_false, or_assoc, and_false, or_and}
use ai_hq.Prelude.Result.{Result, ok, err}
use ai_hq.Prelude.Rows.{find, update_where}
use ai_hq.Prelude.Rows.Finds.{find-update_where, updated, updated_column}
use ai_hq.Tables.{Db}
use ai_hq.Tables.System.{Agent, AgentStatus}
use ai_hq.Gateway.Service.{has_exact_permission}
use ai_hq.Agents.Registry.{
  AgentDefinition, dripvid_mcp_read_permissions, phase1_agents, is_key, add_permission,
  add_permissions, ensure_agent, ensure_agents, with_agents, ensure_phase1_agents, get_by_key,
  agent_status, in_state, write_state, set_state, RegistryCall, start, set, is_start, run_call,
  run_calls,
}

-- Whether the permissions name the capability exactly.
abbrev names : String → List String → Bool
names capability ps = any (λ p. str_eq p capability) ps

same_test : (x d key : String) → str_eq x d ≡ true → str_eq d key ≡ str_eq x key
same_test x d key e = ap (λ s. str_eq s key) (sym ((eq_iff x d).0 e))

other_test : (x d key : String) → str_eq x d ≡ false → str_eq x key ≡ true → str_eq d key ≡ false
other_test x d key e t = elim (Bool-cases (str_eq d key)) [
  | inl s ↦ cc (e, (eq_iff x d).1 ((eq_iff x key).0 t ∙ sym ((eq_iff d key).0 s)))
  | inr s ↦ s
]

module _ (c : String) where
  names-append : (ps qs : List String) → names c (ps ++ qs) ≡ (names c ps || names c qs)
  names-append [] qs = refl
  names-append (p ∷ ps) qs = elim (Bool-cases (str_eq p c)) [
    | inl t ↦ rw t refl
    | inr t ↦ rw t (names-append ps qs)
  ]

  -- A text that equals a named one is named.
  names-equal :
      (n : String) (ps : List String)
      → any (λ q. str_eq q n) ps ≡ true
      → str_eq n c ≡ true
      → names c ps ≡ true
  names-equal n [] h t = cc
  names-equal n (p ∷ ps) h t = elim (Bool-cases (str_eq p n)) [
    | inl e ↦ rw ((eq_iff p n).0 e, t) refl
    | inr e ↦ or_true (str_eq p c) (names-equal n ps (rw e at h) t)
  ]

  names-add_permission :
      (n : String) (ps : List String) → names c (add_permission n ps) ≡ (names c ps || str_eq n c)
  names-add_permission n ps = elim (Bool-cases (any (λ q. str_eq q n) ps)) [
    | inl e ↦ elim (Bool-cases (str_eq n c)) [
      | inl t ↦ rw (e, names-equal n ps e t) refl
      | inr t ↦ rw (e, t) (sym (or_false _))
    ]
    | inr e ↦ rw (e, names-append ps (n ∷ [])) (ap (λ b. names c ps || b) (or_false _))
  ]

  names-add_permissions :
      (ns ps : List String) → names c (add_permissions ns ps) ≡ (names c ps || names c ns)
  unfolding add_permissions
  names-add_permissions [] ps = sym (or_false _)
  names-add_permissions (n ∷ ns) ps =
      rw (names-add_permissions ns (add_permission n ps), names-add_permission n ps)
        (or_assoc (names c ps) (str_eq n c) (names c ns))

  -- Whether a row, if there is one, has the permission.
  abbrev has : Option Agent → Bool
  has none = false
  has (some a) = names c a.permissions

  -- Whether the definition gives the agent the permission.
  abbrev gives : String → AgentDefinition → Bool
  gives key d = str_eq d.key key && names c d.permissions

  ensure_agent-has :
      (key : String) (d : AgentDefinition) (xs : List Agent)
      → has (find (is_key key) (ensure_agent d xs)) ≡ (has (find (is_key key) xs) || gives key d)
  unfolding find ensure_agent
  ensure_agent-has key d [] = elim (Bool-cases (str_eq d.key key)) [
    | inl t ↦ rw t refl
    | inr t ↦ rw t refl
  ]
  ensure_agent-has key d (x ∷ xs) = elim (Bool-cases (str_eq x.key d.key)) [
    | inl e ↦ elim (Bool-cases (str_eq x.key key)) [
      | inl t ↦
          rw (e, same_test x.key d.key key e, t) (names-add_permissions d.permissions x.permissions)
      | inr t ↦ rw (e, same_test x.key d.key key e, t) (sym (or_false _))
    ]
    | inr e ↦ elim (Bool-cases (str_eq x.key key)) [
      | inl t ↦ rw (e, other_test x.key d.key key e t, t) (sym (or_false _))
      | inr t ↦ rw (e, t) (ensure_agent-has key d xs)
    ]
  ]

  ensure_agents-has :
      (key : String) (ds : List AgentDefinition) (xs : List Agent)
      → has (find (is_key key) (ensure_agents ds xs))
        ≡ (has (find (is_key key) xs) || any (gives key) ds)
  unfolding ensure_agents
  ensure_agents-has key [] xs = sym (or_false _)
  ensure_agents-has key (d ∷ ds) xs =
      rw (ensure_agents-has key ds (ensure_agent d xs), ensure_agent-has key d xs)
        (or_assoc (has (find (is_key key) xs)) (gives key d) (any (gives key) ds))

  has-map :
      (f : Agent → Agent)
      → ((a : Agent) → (f a).permissions ≡ a.permissions)
      → (o : Option Agent) → has (Option.map f o) ≡ has o
  has-map f same none = refl
  has-map f same (some a) = ap (names c) (same a)

  has_exact_permission-has :
      (key : String) (db : Db) → has_exact_permission key c db ≡ has (find (is_key key) db.agents)
  unfolding has_exact_permission
  has_exact_permission-has key db = elim (Option-cases (find (is_key key) db.agents)) [
    | inl e ↦ rw (has_exact_permission, e) refl
    | inr (a, e) ↦ rw (has_exact_permission, e) refl
  ]

  -- What the start gives: to the SysAdmin, the permissions to read over MCP.
  abbrev given_at_start : String → Bool
  given_at_start key = str_eq "sysadmin" key && names c dripvid_mcp_read_permissions

  phase1-given : (key : String) → any (gives key) phase1_agents ≡ given_at_start key
  phase1-given key =
      rw
        (
          and_false (str_eq "commander" key),
          and_false (str_eq "communications" key),
          and_false (str_eq "calendar" key),
        )
        (or_false (given_at_start key))

  write_state-has :
      (key agent_key : String) (mission : Option ℕ) (r : Result Agent) (s : Result AgentStatus)
      (db : Db)
      → has_exact_permission key c ((write_state agent_key mission r s db).1)
        ≡ has_exact_permission key c db
  write_state-has key agent_key mission (err e) s db = refl
  write_state-has key agent_key mission (ok a) (err e) db = refl
  write_state-has key agent_key mission (ok a) (ok status) db =
      let f = in_state status mission in
      let q = is_key agent_key in
      rw
        (
          has_exact_permission-has key (with_agents (update_where q f db.agents) db),
          has_exact_permission-has key db,
          find-update_where (is_key key) q f db.agents
              (λ x. updated_column (is_key key) q f x refl),
        )
        (has-map (updated q f) (λ x. updated_column (λ a. a.permissions) q f x refl)
          (find (is_key key) db.agents))

  set_state-has :
      (key agent_key status : String) (mission : Option ℕ) (db : Db)
      → has_exact_permission key c ((set_state agent_key status mission db).1)
        ≡ has_exact_permission key c db
  unfolding set_state
  set_state-has key agent_key status mission db =
      write_state-has key agent_key mission (get_by_key agent_key db) (agent_status status) db

  run_call-has :
      (key : String) (call : RegistryCall) (db : Db)
      → has_exact_permission key c (run_call call db)
        ≡ (has_exact_permission key c db || (is_start call && given_at_start key))
  unfolding run_call ensure_phase1_agents
  run_call-has key start db = rw (has_exact_permission-has key db) (
      has_exact_permission-has key _
      ∙ ensure_agents-has key phase1_agents db.agents
      ∙ ap (λ b. has (find (is_key key) db.agents) || b) (phase1-given key))
  run_call-has key (set agent_key status mission) db =
      set_state-has key agent_key status mission db ∙ sym (or_false _)

  -- After any sequence of calls of the registry an agent has exactly the permissions it had, and,
  -- if one of the calls is the start, the SysAdmin also the four to read from DripVid over MCP. So
  -- no call takes a permission away, and none gives one that is not named here.
  pub registry_authority :
      (key : String) (calls : List RegistryCall) (db : Db)
      → has_exact_permission key c (run_calls calls db)
        ≡ (has_exact_permission key c db || (any is_start calls && given_at_start key))
  unfolding run_calls
  registry_authority key [] db = sym (or_false _)
  registry_authority key (call ∷ calls) db =
      rw (registry_authority key calls (run_call call db), run_call-has key call db)
        (or_assoc (has_exact_permission key c db) (is_start call && given_at_start key)
            (any is_start calls && given_at_start key)
          ∙ ap (λ b. has_exact_permission key c db || b)
              (or_and (is_start call) (any is_start calls) (given_at_start key)))
