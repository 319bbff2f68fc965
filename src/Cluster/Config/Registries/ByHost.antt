-- ===== src/Cluster/Config/Registries/ByHost.antt =====
-- cluster/config.go: what registriesConfig has under each host.
use mathlib.Core.Path.{subst}
use mathlib.Core.List.{append-nil, append_assoc}
use talos_in_qemu.Prelude.{
  inl, inr, ◌≡◌, refl, sym, ap, ◌∙◌, String, Bool, true, false, Option, none, some, List, [], ◌∷◌,
  ◌++◌, not, ◌||◌, ◌&&◌, str_eq, eq_iff, if◌then◌else◌, any, map, Bool-cases,
}
use talos_in_qemu.Cluster.Up.Effects.{RegistryMirror}
use talos_in_qemu.Cluster.Config.Registries.{
  MirrorConfig, TlsConfig, RegistriesConfig, put, or_empty, with_mirror, needs_tls, tls_of,
  add_mirror, add_mirrors, no_registries, registries_config,
}

-- The mirrors of a host, in their order.
abbrev pub of_host : String → List RegistryMirror → List RegistryMirror
of_host h [] = []
of_host h (m ∷ rest) = let later = of_host h rest in if str_eq h m.host then m ∷ later else later

-- All the endpoints of a host in order; its path is overridden where one of its mirrors asks for it.
abbrev pub listed : List RegistryMirror → Option MirrorConfig
listed [] = none
listed (m ∷ ms) = some (record {
  endpoints = map (λ n. n.endpoint) (m ∷ ms);
  override_path = if any (λ n. n.override_path) (m ∷ ms) then some true else none;
})

-- What the last mirror that needs TLS asks for.
abbrev pub last_tls : Option TlsConfig → List RegistryMirror → Option TlsConfig
last_tls found [] = found
last_tls found (m ∷ ms) = last_tls (if needs_tls m then some (tls_of m) else found) ms

-- The TLS settings of a host: none for every host at once.
abbrev pub trusted : String → List RegistryMirror → Option TlsConfig
trusted h ms = if str_eq h "*" then none else last_tls none ms

-- An entry with all the mirrors of a host.
abbrev extended : Option MirrorConfig → List RegistryMirror → Option MirrorConfig
extended found [] = found
extended found (m ∷ ms) = extended (some (with_mirror m (or_empty found))) ms

-- What one mirror does to the entry of a host.
mirrors-add_mirror :
    (h : String) (out : RegistriesConfig) (m : RegistryMirror)
    → (add_mirror out m).mirrors h
      ≡ put m.host (with_mirror m (or_empty (out.mirrors m.host))) out.mirrors h
unfolding add_mirror
mirrors-add_mirror h out m = elim (Bool-cases (needs_tls m)) [
  | inl e ↦ elim (Bool-cases (str_eq m.host "*")) [
    | inl f ↦ rw e (rw f refl)
    | inr f ↦ rw e (rw f refl)
  ]
  | inr e ↦ rw e refl
]

put_own :
    (h key : String) (f : Option MirrorConfig → MirrorConfig) (m : String → Option MirrorConfig)
    → put key (f (m key)) m h ≡ (if str_eq h key then some (f (m h)) else m h)
unfolding put
put_own h key f m = elim (Bool-cases (str_eq h key)) [
  | inl e ↦ rw e (ap (λ k. some (f (m k))) (sym ((eq_iff h key).0 e)))
  | inr e ↦ rw e refl
]

extended_if :
    (b : Bool) (m : RegistryMirror) (found : Option MirrorConfig) (ms : List RegistryMirror)
    → extended (if b then some (with_mirror m (or_empty found)) else found) ms
      ≡ extended found (if b then m ∷ ms else ms)
extended_if true m found ms = refl
extended_if false m found ms = refl

mirrors_lem :
    (h : String) (out : RegistriesConfig) (ms : List RegistryMirror)
    → (add_mirrors out ms).mirrors h ≡ extended (out.mirrors h) (of_host h ms)
unfolding add_mirrors
mirrors_lem h out [] = refl
mirrors_lem h out (m ∷ rest) =
    let own = put_own h m.host (λ o. with_mirror m (or_empty o)) out.mirrors in
    mirrors_lem h (add_mirror out m) rest
    ∙ (ap (λ o. extended o (of_host h rest)) (mirrors-add_mirror h out m ∙ own)
        ∙ extended_if (str_eq h m.host) m (out.mirrors h) (of_host h rest))

-- What one mirror does to the TLS settings of a host.
config-add_mirror :
    (h : String) (out : RegistriesConfig) (m : RegistryMirror)
    → (add_mirror out m).config h ≡ (
        if needs_tls m && (not (str_eq m.host "*") && str_eq h m.host)
        then some (tls_of m)
        else out.config h)
unfolding add_mirror put
config-add_mirror h out m = elim (Bool-cases (needs_tls m)) [
  | inl e ↦ elim (Bool-cases (str_eq m.host "*")) [
    | inl f ↦ rw e (rw f refl)
    | inr f ↦ rw e (rw f refl)
  ]
  | inr e ↦ rw e refl
]

and_false : (a : Bool) → a && false ≡ false
and_false true = refl
and_false false = refl

and_right : (a : Bool) → a && true ≡ a
and_right true = refl
and_right false = refl

-- A mirror for every host has no TLS settings.
not_star : (a b : Bool) (h k : String) → h ≡ "*" → a && (not (str_eq k "*") && str_eq h k) ≡ false
not_star false b h k e = refl
not_star true b h k e = elim (Bool-cases (str_eq h k)) [
  | inl f ↦ let star = (eq_iff k "*").1 (sym ((eq_iff h k).0 f) ∙ e) in rw star refl
  | inr f ↦ rw f (and_false (not (str_eq k "*")))
]

star_lem :
    (h : String) (out : RegistriesConfig) (ms : List RegistryMirror)
    → h ≡ "*"
    → (add_mirrors out ms).config h ≡ out.config h
unfolding add_mirrors
star_lem h out [] star = refl
star_lem h out (m ∷ rest) star =
    star_lem h (add_mirror out m) rest star
    ∙ (config-add_mirror h out m ∙ rw (not_star (needs_tls m) true h m.host star) refl)

last_tls_if :
    (b : Bool) (m : RegistryMirror) (found : Option TlsConfig) (ms : List RegistryMirror)
    → last_tls (if needs_tls m && b then some (tls_of m) else found) ms
      ≡ last_tls found (if b then m ∷ ms else ms)
last_tls_if true m found ms =
    ap (λ b. last_tls (if b then some (tls_of m) else found) ms) (and_right (needs_tls m))
last_tls_if false m found ms =
    ap (λ b. last_tls (if b then some (tls_of m) else found) ms) (and_false (needs_tls m))

own_host : (h k : String) → str_eq h "*" ≡ false → not (str_eq k "*") && str_eq h k ≡ str_eq h k
own_host h k star = elim (Bool-cases (str_eq h k)) [
  | inl f ↦ let named = subst (λ u. str_eq u "*" ≡ false) ((eq_iff h k).0 f) star in rw named refl
  | inr f ↦ rw f (and_false (not (str_eq k "*")))
]

config_lem :
    (h : String) (out : RegistriesConfig) (ms : List RegistryMirror)
    → str_eq h "*" ≡ false
    → (add_mirrors out ms).config h ≡ last_tls (out.config h) (of_host h ms)
unfolding add_mirrors
config_lem h out [] star = refl
config_lem h out (m ∷ rest) star =
    let step = config-add_mirror h out m in
    config_lem h (add_mirror out m) rest star
    ∙ (ap (λ o. last_tls o (of_host h rest)) (rw (own_host h m.host star) at step)
        ∙ last_tls_if (str_eq h m.host) m (out.config h) (of_host h rest))

override_if :
    (a b : Bool) (found : Option Bool)
    → (if a then some true else (if b then some true else found))
      ≡ (if b || a then some true else found)
override_if true true found = refl
override_if true false found = refl
override_if false true found = refl
override_if false false found = refl

extended_lem :
    (entry : MirrorConfig) (ms : List RegistryMirror)
    → extended (some entry) ms
      ≡ some (record {
        endpoints = entry.endpoints ++ map (λ n. n.endpoint) ms;
        override_path = if any (λ n. n.override_path) ms then some true else entry.override_path;
      })
unfolding with_mirror
extended_lem entry [] =
    ap (λ l. some (record { endpoints = l; override_path = entry.override_path }))
      (sym (append-nil entry.endpoints))
extended_lem entry (m ∷ ms) =
    extended_lem (with_mirror m entry) ms
    ∙ (ap
          (λ l. some (record {
            endpoints = l;
            override_path =
                (if any (λ n. n.override_path) ms
                  then some true
                  else (with_mirror m entry).override_path);
          }))
          (append_assoc entry.endpoints (m.endpoint ∷ []) (map (λ n. n.endpoint) ms))
        ∙ ap
            (λ o. some (record {
              endpoints = entry.endpoints ++ map (λ n. n.endpoint) (m ∷ ms);
              override_path = o;
            }))
            (override_if (any (λ n. n.override_path) ms) m.override_path entry.override_path))

extended-listed : (ms : List RegistryMirror) → extended none ms ≡ listed ms
unfolding with_mirror
extended-listed [] = refl
extended-listed (m ∷ ms) =
    extended_lem (with_mirror m (or_empty none)) ms
    ∙ ap (λ o. some (record { endpoints = map (λ n. n.endpoint) (m ∷ ms); override_path = o }))
        (override_if (any (λ n. n.override_path) ms) m.override_path none)

-- Under each host the machine config has the endpoints of the host's mirrors in their order, the
-- path overridden where one of them asks for it, and no entry where there is none; its TLS settings
-- are those of the last of them that needs any, and "*" has none.
pub registries_config_lem :
    (ms : List RegistryMirror) (h : String)
    → ((registries_config ms).mirrors h ≡ listed (of_host h ms))
      × ((registries_config ms).config h ≡ trusted h (of_host h ms))
unfolding registries_config
registries_config_lem ms h = (
  mirrors_lem h no_registries ms ∙ extended-listed (of_host h ms),
  elim (Bool-cases (str_eq h "*")) [
    | inl e ↦ rw e (star_lem h no_registries ms ((eq_iff h "*").0 e))
    | inr e ↦ rw e (config_lem h no_registries ms e)
  ],
)
