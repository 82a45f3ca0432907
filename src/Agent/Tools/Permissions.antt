-- ===== src/Agent/Tools/Permissions.antt =====
-- What an agent may do under the merged configuration, in terms of its skills.
use hill90_app.Prelude.{
  ℕ, subst, In, ◌↔◌, ◌⊎◌, inl, inr, sym, ◌≤◌, Bool-cases, max, ◌≡◌, refl, ◌∙◌, ap, Bool, true,
  false, ◌||◌, List, [], ◌∷◌, ◌++◌, String, arith, eq_iff, if◌then◌else◌,
}
use hill90_app.Agent.Tools.{
  ToolsConfig, includes, dedupe, some_config, every_config, flat_map, longest_timeout, is_empty,
  merge_all, merge_tools_configs, union,
}

-- agentbox's reading of the list of binaries: an empty one restricts nothing.
pub allows_binary : String → ToolsConfig → Bool
allows_binary b c = is_empty c.shell.allowed_binaries || includes c.shell.allowed_binaries b

pub denies_pattern : String → ToolsConfig → Bool
denies_pattern p c = includes c.shell.denied_patterns p

pub allows_path : String → ToolsConfig → Bool
allows_path p c = includes c.filesystem.allowed_paths p

pub denies_path : String → ToolsConfig → Bool
denies_path p c = includes c.filesystem.denied_paths p

includes-append :
    (xs ys : List String) (x : String) → includes (xs ++ ys) x ≡ (includes xs x || includes ys x)
unfolding includes
includes-append [] ys x = refl
includes-append (y ∷ xs) ys x = ground (arith, includes-append xs ys x)

includes-dedupe_seen :
    (seen xs : List String) (x : String)
    → (includes seen x || includes (dedupe seen xs) x) ≡ (includes seen x || includes xs x)
unfolding includes dedupe
includes-dedupe_seen seen [] x = refl
includes-dedupe_seen seen (y ∷ xs) x =
    ground (arith, includes-dedupe_seen seen xs x, includes-dedupe_seen (y ∷ seen) xs x, eq_iff y x)

includes-dedupe : (xs : List String) (x : String) → includes (dedupe [] xs) x ≡ includes xs x
includes-dedupe xs x = let h = includes-dedupe_seen [] xs x in unfold includes in ground (arith, h)

includes-flat_map :
    (f : ToolsConfig → List String) (cs : List ToolsConfig) (x : String)
    → includes (flat_map f cs) x ≡ some_config (λ c. includes (f c) x) cs
unfolding flat_map some_config
includes-flat_map f [] x = unfold includes in refl
includes-flat_map f (c ∷ cs) x =
    includes-append (f c) (flat_map f cs) x
    ∙ ap (λ b. includes (f c) x || b) (includes-flat_map f cs x)

includes-union :
    (f : ToolsConfig → List String) (cs : List ToolsConfig) (x : String)
    → includes (union f cs) x ≡ some_config (λ c. includes (f c) x) cs
includes-union f cs x = includes-dedupe (flat_map f cs) x ∙ includes-flat_map f cs x

some_config-or :
    (f g : ToolsConfig → Bool) (cs : List ToolsConfig)
    → some_config (λ c. f c || g c) cs ≡ (some_config f cs || some_config g cs)
unfolding some_config
some_config-or f g [] = refl
some_config-or f g (c ∷ cs) = ground (arith, some_config-or f g cs)

-- A union of lists of which none is empty is not empty.
is_empty-union :
    (f : ToolsConfig → List String) (c : ToolsConfig) (cs : List ToolsConfig)
    → is_empty (f c) ≡ false
    → is_empty (union f (c ∷ cs)) ≡ false
unfolding flat_map dedupe includes
is_empty-union f c cs h = first (f c) h
  where
    first :
        (xs : List String)
        → is_empty xs ≡ false
        → is_empty (dedupe [] (xs ++ flat_map f cs)) ≡ false
    first [] h = ground (arith, h)
    first (x ∷ xs) h = refl

-- Some skill has the property.
abbrev pub One : (ToolsConfig → Type 0) → List ToolsConfig → Type 0
One P cs = (c : ToolsConfig) × In c cs × P c

-- The shell's list of binaries is empty, or names this one.
abbrev pub Lists : String → ToolsConfig → Type 0
Lists b c = (c.shell.allowed_binaries ≡ []) ⊎ In b c.shell.allowed_binaries

-- What a configuration permits by an account of the skills that it merges.
pub record IsJoin (m : ToolsConfig) (cs : List ToolsConfig) : Type 0 where
  pub shell : (m.shell.enabled ≡ true) ↔ One (λ c. c.shell.enabled ≡ true) cs
  pub binaries : (b : String) → Lists b m ↔ One (Lists b) cs
  pub patterns :
      (p : String) → In p m.shell.denied_patterns ↔ One (λ c. In p c.shell.denied_patterns) cs
  pub timeout_covers : (c : ToolsConfig) → In c cs → c.shell.max_timeout ≤ m.shell.max_timeout
  pub timeout_reached : One (λ c. c.shell.max_timeout ≡ m.shell.max_timeout) cs
  pub filesystem : (m.filesystem.enabled ≡ true) ↔ One (λ c. c.filesystem.enabled ≡ true) cs
  pub writable : (m.filesystem.read_only ≡ false) ↔ One (λ c. c.filesystem.read_only ≡ false) cs
  pub allowed :
      (p : String) → In p m.filesystem.allowed_paths ↔ One (λ c. In p c.filesystem.allowed_paths) cs
  pub denied :
      (p : String) → In p m.filesystem.denied_paths ↔ One (λ c. In p c.filesystem.denied_paths) cs
  pub health : (m.health.enabled ≡ true) ↔ One (λ c. c.health.enabled ≡ true) cs

includes_iff : (xs : List String) (x : String) → (includes xs x ≡ true) ↔ In x xs
unfolding includes
includes_iff [] x = ground arith
includes_iff (y ∷ ys) x = ground (arith, eq_iff y x, includes_iff ys x)

One-cons :
    (P : ToolsConfig → Type 0) (c : ToolsConfig) (cs : List ToolsConfig)
    → One P (c ∷ cs) ↔ (P c ⊎ One P cs)
One-cons P c cs = (forth, back)
  where
    forth : One P (c ∷ cs) → P c ⊎ One P cs
    forth (d, inl i, k) = inl (subst P i k)
    forth (d, inr i, k) = inr (d, i, k)

    back : P c ⊎ One P cs → One P (c ∷ cs)
    back (inl k) = (c, inl refl, k)
    back (inr (d, i, k)) = (d, inr i, k)

One-single : (P : ToolsConfig → Type 0) (c : ToolsConfig) → P c ↔ One P (c ∷ [])
One-single P c = (λ k. (c, inl refl, k), back)
  where
    back : One P (c ∷ []) → P c
    back (d, inl i, k) = subst P i k
    back (d, inr i, k) = elim i [ ]

One-map :
    (P Q : ToolsConfig → Type 0) (cs : List ToolsConfig)
    → ((c : ToolsConfig) → P c ↔ Q c)
    → One P cs ↔ One Q cs
One-map P Q cs h = (λ (c, i, k). (c, i, (h c).0 k), λ (c, i, k). (c, i, (h c).1 k))

trans_iff : {A B C : Type 0} → A ↔ B → B ↔ C → A ↔ C
trans_iff f g = (λ a. g.0 (f.0 a), λ c. f.1 (g.1 c))

some_config_iff :
    (f : ToolsConfig → Bool) (cs : List ToolsConfig)
    → (some_config f cs ≡ true) ↔ One (λ c. f c ≡ true) cs
unfolding some_config
some_config_iff f [] = (λ e. absurd (ground (arith, e)), λ (c, i, e). elim i [ ])
some_config_iff f (c ∷ cs) =
    let ih = some_config_iff f cs in
    let (split, join) = One-cons (λ d. f d ≡ true) c cs in
    (
      λ e.
          join
            (elim (Bool-cases (f c)) [ inl h ↦ inl h | inr h ↦ inr (ih.0 (ground (arith, h, e))) ]),
      λ o. elim (split o) [
        | inl h ↦ ground (arith, h)
        | inr l ↦ let h = ih.1 l in ground (arith, h)
      ],
    )

every_config_iff :
    (f : ToolsConfig → Bool) (cs : List ToolsConfig)
    → (every_config f cs ≡ false) ↔ One (λ c. f c ≡ false) cs
unfolding every_config
every_config_iff f [] = (λ e. absurd (ground (arith, e)), λ (c, i, e). elim i [ ])
every_config_iff f (c ∷ cs) =
    let ih = every_config_iff f cs in
    let (split, join) = One-cons (λ d. f d ≡ false) c cs in
    (
      λ e.
          join
            (elim (Bool-cases (f c)) [ inr h ↦ inl h | inl h ↦ inr (ih.0 (ground (arith, h, e))) ]),
      λ o. elim (split o) [
        | inl h ↦ ground (arith, h)
        | inr l ↦ let h = ih.1 l in ground (arith, h)
      ],
    )

longest-covers :
    (cs : List ToolsConfig) (c : ToolsConfig) → In c cs → c.shell.max_timeout ≤ longest_timeout cs
unfolding longest_timeout
longest-covers [] c i = elim i [ ]
longest-covers (d ∷ cs) c (inl e) =
    let same : c.shell.max_timeout ≡ d.shell.max_timeout = ap (λ x. x.shell.max_timeout) e in
    omega arith
longest-covers (d ∷ cs) c (inr i) = omega (arith, longest-covers cs c i)

max-either : (a b : ℕ) → (max a b ≡ a) ⊎ (max a b ≡ b)
max-either a b = ground arith

longest-reached :
    (c : ToolsConfig) (cs : List ToolsConfig)
    → One (λ d. d.shell.max_timeout ≡ longest_timeout (c ∷ cs)) (c ∷ cs)
unfolding longest_timeout
longest-reached c [] = (c, inl refl, omega arith)
longest-reached c (d ∷ cs) =
    let (x, i, e) = longest-reached d cs in
    elim (max-either c.shell.max_timeout (longest_timeout (d ∷ cs))) [
      | inl h ↦ (c, inl refl, sym h)
      | inr h ↦ (x, inr i, e ∙ sym h)
    ]

union_iff :
    (f : ToolsConfig → List String) (cs : List ToolsConfig) (x : String)
    → In x (union f cs) ↔ One (λ c. In x (f c)) cs
union_iff f cs x =
    let found : (includes (union f cs) x ≡ true) ↔ One (λ c. includes (f c) x ≡ true) cs =
      subst (λ b. (b ≡ true) ↔ One (λ c. includes (f c) x ≡ true) cs) (sym (includes-union f cs x))
        (some_config_iff (λ c. includes (f c) x) cs) in
    let each : One (λ c. includes (f c) x ≡ true) cs ↔ One (λ c. In x (f c)) cs =
      One-map _ _ cs (λ c. includes_iff (f c) x) in
    let (to, from) = includes_iff (union f cs) x in trans_iff (from, to) (trans_iff found each)

allows_binary_iff : (b : String) (c : ToolsConfig) → (allows_binary b c ≡ true) ↔ Lists b c
unfolding allows_binary
allows_binary_iff b c = go c.shell.allowed_binaries
  where
    go : (xs : List String) → ((is_empty xs || includes xs b) ≡ true) ↔ ((xs ≡ []) ⊎ In b xs)
    go [] = (λ e. inl refl, λ h. refl)
    go (x ∷ xs) = ground (arith, includes_iff (x ∷ xs) b)

merge_all-binaries :
    (c : ToolsConfig) (cs : List ToolsConfig) (b : String)
    → allows_binary b (merge_all (c ∷ cs)) ≡ some_config (allows_binary b) (c ∷ cs)
unfolding allows_binary merge_all
merge_all-binaries c cs b =
    permits (some_config (λ d. is_empty d.shell.allowed_binaries) (c ∷ cs)) refl
  where
    permits :
        (e : Bool)
        → some_config (λ d. is_empty d.shell.allowed_binaries) (c ∷ cs) ≡ e
        → (is_empty (if e then [] else union (λ d. d.shell.allowed_binaries) (c ∷ cs))
            || includes (if e then [] else union (λ d. d.shell.allowed_binaries) (c ∷ cs)) b)
          ≡ some_config (allows_binary b) (c ∷ cs)
    permits true h = ground (
      arith,
      h,
      some_config-or (λ d. is_empty d.shell.allowed_binaries)
          (λ d. includes d.shell.allowed_binaries b) (c ∷ cs),
    )
    permits false h = ground (
      arith,
      h,
      is_empty-union (λ d. d.shell.allowed_binaries) c cs,
      includes-union (λ d. d.shell.allowed_binaries) (c ∷ cs) b,
      some_config-or (λ d. is_empty d.shell.allowed_binaries)
          (λ d. includes d.shell.allowed_binaries b) (c ∷ cs),
    )

merge_all-Lists :
    (c : ToolsConfig) (cs : List ToolsConfig) (b : String)
    → Lists b (merge_all (c ∷ cs)) ↔ One (Lists b) (c ∷ cs)
merge_all-Lists c cs b =
    let found : (allows_binary b (merge_all (c ∷ cs)) ≡ true)
        ↔ One (λ d. allows_binary b d ≡ true) (c ∷ cs) =
      subst (λ x. (x ≡ true) ↔ One (λ d. allows_binary b d ≡ true) (c ∷ cs))
        (sym (merge_all-binaries c cs b)) (some_config_iff (allows_binary b) (c ∷ cs)) in
    let each : One (λ d. allows_binary b d ≡ true) (c ∷ cs) ↔ One (Lists b) (c ∷ cs) =
      One-map _ _ (c ∷ cs) (allows_binary_iff b) in
    let (to, from) = allows_binary_iff b (merge_all (c ∷ cs)) in
    trans_iff (from, to) (trans_iff found each)

merge_all-IsJoin : (c : ToolsConfig) (cs : List ToolsConfig) → IsJoin (merge_all (c ∷ cs)) (c ∷ cs)
unfolding merge_all
merge_all-IsJoin c cs = record {
  shell = some_config_iff (λ d. d.shell.enabled) (c ∷ cs);
  binaries = merge_all-Lists c cs;
  patterns = union_iff (λ d. d.shell.denied_patterns) (c ∷ cs);
  timeout_covers = longest-covers (c ∷ cs);
  timeout_reached = longest-reached c cs;
  filesystem = some_config_iff (λ d. d.filesystem.enabled) (c ∷ cs);
  writable = every_config_iff (λ d. d.filesystem.read_only) (c ∷ cs);
  allowed = union_iff (λ d. d.filesystem.allowed_paths) (c ∷ cs);
  denied = union_iff (λ d. d.filesystem.denied_paths) (c ∷ cs);
  health = some_config_iff (λ d. d.health.enabled) (c ∷ cs);
}

single-IsJoin : (c : ToolsConfig) → IsJoin c (c ∷ [])
single-IsJoin c = record {
  shell = One-single _ c;
  binaries = λ b. One-single (Lists b) c;
  patterns = λ p. One-single _ c;
  timeout_covers = λ d i. elim i [
    | inl e ↦
        let same : d.shell.max_timeout ≡ c.shell.max_timeout = ap (λ x. x.shell.max_timeout) e in
        omega arith
    | inr i ↦ elim i [ ]
  ];
  timeout_reached = (c, inl refl, refl);
  filesystem = One-single _ c;
  writable = One-single _ c;
  allowed = λ p. One-single _ c;
  denied = λ p. One-single _ c;
  health = One-single _ c;
}

merged-IsJoin :
    (c : ToolsConfig) (cs : List ToolsConfig) → IsJoin (merge_tools_configs (c ∷ cs)) (c ∷ cs)
unfolding merge_tools_configs
merged-IsJoin c [] = single-IsJoin c
merged-IsJoin c (d ∷ cs) = merge_all-IsJoin c (d ∷ cs)

-- A binary runs: there is a shell, and its list does not exclude it.
abbrev pub Runs : String → ToolsConfig → Type 0
Runs b c = (c.shell.enabled ≡ true) × Lists b c

-- What runs under the merge, which lists what any skill lists, also one without a shell.
pub record Binaries (m : ToolsConfig) (cs : List ToolsConfig) (b : String) : Type 0 where
  pub exact : Runs b m ↔ (One (λ c. c.shell.enabled ≡ true) cs × One (Lists b) cs)
  pub kept : One (Runs b) cs → Runs b m
  pub confined : ((c : ToolsConfig) → In c cs → c.shell.enabled ≡ true) → Runs b m → One (Runs b) cs

joined-Binaries :
    (m : ToolsConfig) (cs : List ToolsConfig) (b : String) → IsJoin m cs → Binaries m cs b
joined-Binaries m cs b j = record {
  exact =
      (λ (e, l). (j.shell.0 e, (j.binaries b).0 l), λ (e, l). (j.shell.1 e, (j.binaries b).1 l));
  kept = λ (c, i, (e, l)). (j.shell.1 (c, i, e), (j.binaries b).1 (c, i, l));
  confined = λ up (e, l). let (c, i, k) = (j.binaries b).0 l in (c, i, (up c i, k));
}

-- The merge of one or more skills. It has a shell, a file system or health checks exactly if one of them
-- has, is read-only unless one of them is not, denies a pattern or a path and allows a path exactly if
-- one of them does, and its timeout is the longest. A binary runs exactly if one skill has a shell and one, perhaps another and
-- perhaps without a shell, has a list of binaries that is empty or names it; so what runs under a skill
-- runs under the merge, and where each skill has a shell nothing else does.
pub merge_tools_configs-IsJoin :
    (c : ToolsConfig) (cs : List ToolsConfig)
    → IsJoin (merge_tools_configs (c ∷ cs)) (c ∷ cs)
      × ((b : String) → Binaries (merge_tools_configs (c ∷ cs)) (c ∷ cs) b)
merge_tools_configs-IsJoin c cs =
    let join = merged-IsJoin c cs in (join, λ b. joined-Binaries _ (c ∷ cs) b join)

-- A skill without a shell, whose list of binaries is empty, lifts every restriction of another skill's
-- shell: the merge runs any binary.
pub merge_tools_configs-widens :
    (c d : ToolsConfig) (b : String)
    → c.shell.enabled ≡ true
    → d.shell.enabled ≡ false
    → d.shell.allowed_binaries ≡ []
    → Runs b (merge_tools_configs (c ∷ d ∷ []))
merge_tools_configs-widens c d b up down empty =
    ((merge_tools_configs-IsJoin c (d ∷ [])).1 b).exact.1
      ((c, inl refl, up), (d, inr (inl refl), inl empty))
