-- ===== src/Security/Rbac/Access.antt =====
-- What the default rules let the roles call.
use rav_bot.Prelude.{
  ◌≡◌, ◌≢◌, refl, sym, ◌∙◌, subst, Bool, true, false, ◌||◌, not, Option, none, some, List, [], ◌∷◌,
  any, all, arith, if◌then◌else◌, Bool-cases, inl, inr,
}
use rav_bot.Prelude.Text.{Str, bytes, str_eq, str_eq_iff}
use rav_bot.Prelude.Map.{Map, lookup, insert, lookup-insert}
use rav_bot.Security.Rbac.{
  viewer, operator, operator_admin, operator_read, default_scopes, read_methods, write_methods,
  agent_methods, compat_methods, connect_methods, catalog, read_scopes, operator_write, node_read,
  node_execute, assign, default_rules, member, matches_any, is_allowed, role_from_string,
}

lookup-assign :
    (method : Str) (methods scopes : List Str) (table : Map (List Str))
    → lookup method (assign methods scopes table)
      ≡ (if member method methods then some scopes else lookup method table)
unfolding assign member
lookup-assign method [] scopes table = refl
lookup-assign method (m ∷ ms) scopes table = ground (
  arith,
  lookup-assign method ms scopes (insert m scopes table),
  lookup-insert m method scopes table,
)

-- A set of required scopes that admits an administrator.
abbrev Admits : Option (List Str) → Type 0
Admits none = Unit
Admits (some required) =
    (client : List Str) → member operator_admin client ≡ true → matches_any client required ≡ true

assign-Admits :
    (methods scopes : List Str)
    → Admits (some scopes)
    → (table : Map (List Str)) → ((m : Str) → Admits (lookup m table))
    → (m : Str) → Admits (lookup m (assign methods scopes table))
assign-Admits methods scopes h table hs m =
    subst Admits (sym (lookup-assign m methods scopes table))
      (elim (Bool-cases (member m methods)) [ inl e ↦ rw e h | inr e ↦ rw e (hs m) ])

-- Disjoint lists have no common member.
disjoint :
    (m : Str) (xs ys : List Str)
    → all (λ x. not (member x ys)) xs ≡ true
    → member m xs ≡ true
    → member m ys ≡ false
unfolding member
disjoint m [] ys h e = absurd (cc)
disjoint m (x ∷ xs) ys h e = elim (Bool-cases (str_eq x m)) [
  | inl same ↦ subst (λ z. member z ys ≡ false) ((str_eq_iff x m).0 same) (ground arith)
  | inr differ ↦ disjoint m xs ys (ground arith) (ground arith)
]

any-member :
    (s : Str) (client required : List Str)
    → member s client ≡ true
    → member s required ≡ true
    → any (λ t. member t required) client ≡ true
unfolding member
any-member s [] required h r = absurd (cc)
any-member s (t ∷ ts) required h r = elim (Bool-cases (str_eq t s)) [
  | inl same ↦
      let e : member t required ≡ true =
        subst (λ z. member z required ≡ true) (sym ((str_eq_iff t s).0 same)) r in
      ground arith
  | inr differ ↦ ground (arith, any-member s ts required (ground arith) r)
]

with_admin :
    (r : Str) (rs : List Str) → member operator_admin (r ∷ rs) ≡ true → Admits (some (r ∷ rs))
unfolding matches_any
with_admin r rs h client c = any-member operator_admin client (r ∷ rs) c h

no_scope : Admits (some [])
unfolding matches_any
no_scope client c = refl

Admits-allowed :
    (o : Option (List Str)) (client : List Str)
    → Admits o
    → member operator_admin client ≡ true
    → (elim o as (λ x. Bool) [
      | none ↦ member operator_admin client
      | some required ↦ matches_any client required
    ])
      ≡ true
Admits-allowed none client h c = c
Admits-allowed (some required) client h c = h client c

default_rules-Admits : (m : Str) → Admits (lookup m default_rules)
unfolding default_rules member lookup str_eq
default_rules-Admits =
    let read =
      with_admin operator_read (operator_write ∷ operator_admin ∷ node_read ∷ node_execute ∷ [])
        refl in
    assign-Admits (catalog ∷ []) read_scopes read _ (
      assign-Admits connect_methods [] no_scope _ (
        assign-Admits compat_methods read_scopes read _ (
          assign-Admits agent_methods (operator_write ∷ operator_admin ∷ node_execute ∷ [])
            (with_admin operator_write (operator_admin ∷ node_execute ∷ []) refl) _
            (assign-Admits write_methods (operator_write ∷ operator_admin ∷ [])
              (with_admin operator_write (operator_admin ∷ []) refl) _
              (assign-Admits read_methods read_scopes read [] (λ m. tt))))))

-- With the default rules, a client that has operator.admin may call every method.
is_allowed-admin :
    (method role : Str) (client_scopes : List Str)
    → member operator_admin client_scopes ≡ true
    → is_allowed method role client_scopes default_rules ≡ true
unfolding is_allowed
is_allowed-admin method role client_scopes h =
    Admits-allowed (lookup method default_rules) client_scopes (default_rules-Admits method) h

-- The answer for a viewer, given the scopes that a method requires.
viewer_may : Option (List Str) → Bool
unfolding matches_any
viewer_may none = member operator_admin (operator_read ∷ [])
viewer_may (some required) = matches_any (operator_read ∷ []) required

viewer_may-assign :
    (method : Str) (methods scopes : List Str) (table : Map (List Str)) (answer : Bool)
    → viewer_may (some scopes) ≡ answer
    → viewer_may (lookup method (assign methods scopes table))
      ≡ (if member method methods then answer else viewer_may (lookup method table))
viewer_may-assign method methods scopes table answer h = elim (Bool-cases (member method methods)) [
  | inl e ↦ ground (arith, lookup-assign method methods scopes table)
  | inr e ↦ ground (arith, lookup-assign method methods scopes table)
]

viewer_may_elim :
    (o : Option (List Str))
    → (elim o as (λ x. Bool) [
      | none ↦ member operator_admin (operator_read ∷ [])
      | some required ↦ matches_any (operator_read ∷ []) required
    ])
      ≡ viewer_may o
unfolding viewer_may
viewer_may_elim none = refl
viewer_may_elim (some required) = refl

-- Two layers over the readable methods refuse, and three above them allow.
under_layers :
    (r w a x y z : Bool)
    → z ≡ (if r then true else false)
    → y ≡ (if w then false else z)
    → x ≡ (if a then false else y)
    → (w ≡ true → r ≡ false)
    → (a ≡ true → r ≡ false)
    → x ≡ r
under_layers r w a x y z hz hy hx dw da = ground arith

over_layers :
    (r p c l x y z u : Bool)
    → u ≡ r
    → z ≡ (if p then true else u)
    → y ≡ (if c then true else z)
    → x ≡ (if l then true else y)
    → x ≡ (r || (p || (c || l)))
over_layers r p c l x y z u hu hz hy hx = ground arith

module _ (method : Str) (late connects compats agents writes reads : List Str) where
  abbrev with_reads : Map (List Str)
  with_reads = assign reads read_scopes []

  abbrev with_writes : Map (List Str)
  with_writes = assign writes (operator_write ∷ operator_admin ∷ []) with_reads

  abbrev with_agents : Map (List Str)
  with_agents = assign agents (operator_write ∷ operator_admin ∷ node_execute ∷ []) with_writes

  abbrev with_compats : Map (List Str)
  with_compats = assign compats read_scopes with_agents

  abbrev with_connects : Map (List Str)
  with_connects = assign connects [] with_compats

  after_agents :
      all (λ x. not (member x reads)) writes ≡ true
      → all (λ x. not (member x reads)) agents ≡ true
      → viewer_may (lookup method with_agents) ≡ member method reads
  unfolding viewer_may matches_any member str_eq lookup
  after_agents w a =
      under_layers (member method reads) (member method writes) (member method agents)
        (viewer_may (lookup method with_agents)) (viewer_may (lookup method with_writes))
        (viewer_may (lookup method with_reads))
        (viewer_may-assign method reads read_scopes [] true refl)
        (viewer_may-assign method writes (operator_write ∷ operator_admin ∷ []) with_reads false
          refl)
        (viewer_may-assign method agents (operator_write ∷ operator_admin ∷ node_execute ∷ [])
          with_writes false refl)
        (disjoint method writes reads w) (disjoint method agents reads a)

  viewer_allowed :
      all (λ x. not (member x reads)) writes ≡ true
      → all (λ x. not (member x reads)) agents ≡ true
      → viewer_may (lookup method (assign late read_scopes with_connects)) ≡ (
          member method reads
          || (member method compats || (member method connects || member method late)))
  unfolding viewer_may matches_any member str_eq
  viewer_allowed w a =
      over_layers (member method reads) (member method compats) (member method connects)
        (member method late) (viewer_may (lookup method (assign late read_scopes with_connects)))
        (viewer_may (lookup method with_connects)) (viewer_may (lookup method with_compats))
        (viewer_may (lookup method with_agents)) (after_agents w a)
        (viewer_may-assign method compats read_scopes with_agents true refl)
        (viewer_may-assign method connects [] with_compats true refl)
        (viewer_may-assign method late read_scopes with_connects true refl)

-- With the default rules, a viewer may call exactly the read-only methods, those of the user
-- interface, the two connect methods and the catalog of tools.
pub is_allowed-viewer :
    (method role : Str)
    → is_allowed method role (default_scopes viewer) default_rules ≡ (
        member method read_methods
        || (member method compat_methods
            || (member method connect_methods || member method (catalog ∷ []))))
unfolding is_allowed default_rules default_scopes member str_eq
is_allowed-viewer method role =
    viewer_may_elim (lookup method default_rules)
    ∙ viewer_allowed method (catalog ∷ []) connect_methods compat_methods agent_methods
        write_methods read_methods refl refl

unknown_is_operator :
    (s : Str) → s ≢ bytes "viewer" → s ≢ bytes "node" → role_from_string s ≡ operator
unfolding role_from_string
unknown_is_operator s v n =
    ground (arith, str_eq_iff s (bytes "viewer"), str_eq_iff s (bytes "node"))

-- A role that is neither "viewer" nor "node" is read as the operator's, whose default scopes may
-- call every method.
role_from_string-unknown :
    (s method role : Str)
    → s ≢ bytes "viewer"
    → s ≢ bytes "node"
    → is_allowed method role (default_scopes (role_from_string s)) default_rules ≡ true
unfolding default_scopes member str_eq
role_from_string-unknown s method role v n =
    subst (λ r. is_allowed method role (default_scopes r) default_rules ≡ true)
      (sym (unknown_is_operator s v n))
      (is_allowed-admin method role (default_scopes operator) refl)
