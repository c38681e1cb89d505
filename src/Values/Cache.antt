-- ===== src/Values/Cache.antt =====
-- The bounded caches of webembed/src/value-formatters.mjs: `cachedIntlFormatter` and its key. What
-- `baseType` and `temporalType` do is `cached` with the argument as the key.
use rowake.Prelude.{
  ℕ, ◌≤◌, ◌≡◌, refl, ap, ap₂, ◌∙◌, lit, drop, nat_eq, is_some, Bool, true, false, Text, Option,
  none, some, List, [], ◌∷◌, ◌++◌, arith, if◌then◌else◌, leb, ◌==◌, ==-eq, length, length-append,
  All, All-append, Bool-cases, inl, inr, sym,
}
use mathlib.Core.Option.{some-injective}

abbrev pub cache_limit : ℕ
cache_limit = 64

-- A `Map` in the order in which its keys were added.
abbrev pub Cache {ℓ} : Type ℓ → Type ℓ
Cache V = List (Text × V)

module _ {ℓ} {V : Type ℓ} where
  -- `cache.get(key)`
  unfoldable pub cache_get : Text → Cache V → Option V
  cache_get k [] = none
  cache_get k ((j, v) ∷ c) = if j == k then some v else cache_get k c

  -- `cache.set(key, value)` where the key is absent, behind the test of the size
  unfoldable pub cache_put : Text → V → Cache V → Cache V
  cache_put k v c = if leb cache_limit (length c) then (k, v) ∷ [] else c ++ (k, v) ∷ []

  -- where the value had to be made; `none` is an exception, after which nothing is stored
  cache_made : Text → Option V → Cache V → Option V × Cache V
  unfolding cache_put
  cache_made k none c = (none, c)
  cache_made k (some v) c = (some v, cache_put k v c)

  length-cache_put :
      (k : Text) (v : V) (c : Cache V)
      → length c ≤ cache_limit
      → length (cache_put k v c) ≤ cache_limit
  unfolding cache_put
  length-cache_put k v c h = ground (arith, length-append c ((k, v) ∷ []))

  module _ {X : Type 0} (key : X → Text) (create : X → Option V) where
    -- the cached call with an argument: `key` for its entry, and `create` for what makes a value
    unfoldable pub cached : X → Cache V → Option V × Cache V
    unfolding cache_get cache_made
    cached x c = elim (cache_get (key x) c) [
      | some v ↦ (some v, c)
      | none ↦ cache_made (key x) (create x) c
    ]

    -- Every entry is what each argument with its key makes.
    abbrev pub Agrees : Cache V → Type ℓ
    Agrees c = All (λ (entry : Text × V). (x : X) → key x ≡ entry.0 → create x ≡ some entry.1) c

    cache_get-Agrees :
        (x : X) (c : Cache V) (v : V) → Agrees c → cache_get (key x) c ≡ some v → create x ≡ some v
    unfolding cache_get
    cache_get-Agrees x [] v a h = cc
    cache_get-Agrees x ((j, w) ∷ c) v a h = elim (Bool-cases (j == key x)) [
      | inl e ↦ cc (a.0 x (sym (==-eq j (key x) e)), rw (e, if◌then◌else◌) at h)
      | inr e ↦ cache_get-Agrees x c v a.1 (rw (e, if◌then◌else◌) at h)
    ]

    module _ (apart : (x y : X) → key x ≡ key y → x ≡ y) where
      cache_put-Agrees :
          (x : X) (v : V) (c : Cache V)
          → Agrees c
          → create x ≡ some v
          → Agrees (cache_put (key x) v c)
      unfolding cache_put
      cache_put-Agrees x v c a h =
          let new : (y : X) → key y ≡ key x → create y ≡ some v =
            λ y e. ap create (apart y x e) ∙ h in
          elim (Bool-cases (leb cache_limit (length c))) [
            | inl e ↦ rw (e, if◌then◌else◌) (new, tt)
            | inr e ↦ rw (e, if◌then◌else◌) (All-append _ c ((key x, v) ∷ []) a (new, tt))
          ]

      cache_made-cases :
          (x : X) (o : Option V) (c : Cache V)
          → create x ≡ o
          → Agrees c
          → length c ≤ cache_limit
          → ((cache_made (key x) o c).0 ≡ create x)
            × Agrees (cache_made (key x) o c).1
            × (length (cache_made (key x) o c).1 ≤ cache_limit)
      unfolding cache_made
      cache_made-cases x none c made a h = (sym made, a, h)
      cache_made-cases x (some v) c made a h =
          (sym made, cache_put-Agrees x v c a made, length-cache_put (key x) v c h)

      cached-cases :
          (x : X) (c : Cache V)
          → Agrees c
          → length c ≤ cache_limit
          → ((cached x c).0 ≡ create x)
            × Agrees (cached x c).1
            × (length (cached x c).1 ≤ cache_limit)
      unfolding cached
      cached-cases x c a h = on_entry (cache_get (key x) c) refl
        where
          on_entry :
              (o : Option V)
              → cache_get (key x) c ≡ o
              → let r : Option V × Cache V = elim o [
                | some v ↦ (some v, c)
                | none ↦ cache_made (key x) (create x) c
              ] in
                (r.0 ≡ create x) × Agrees r.1 × (length r.1 ≤ cache_limit)
          on_entry none e = cache_made-cases x (create x) c refl a h
          on_entry (some v) e = (sym (cache_get-Agrees x c v a e), a, h)

abbrev is_quoted : Text → Bool
is_quoted [] = false
is_quoted (c ∷ s) = nat_eq c 34

-- `JSON.stringify`, for a text behind its first quotation mark, and for the options of a formatter.
pub record Stringify (O : Type 0) : Type 0 where
  pub text_tail : Text → Text
  pub options : O → Text

-- `JSON.parse` reads back what was written, also where a text is followed by something else.
pub record Parses (O : Type 0) (j : Stringify O) : Type 0 where
  pub read_tail : Text → Option (Text × Text)
  pub read_options : Text → Option O
  pub text_back : (t rest : Text) → read_tail (j.text_tail t ++ b':' ∷ rest) ≡ some (t, b':' ∷ rest)
  pub options_back : (o : O) → read_options (j.options o) ≡ some o

module _ {O : Type 0} (j : Stringify O) where
  -- `JSON.stringify(locale ?? null)`; `none` is `undefined`
  unfoldable pub locale_json : Option Text → Text
  locale_json none = lit "null"
  locale_json (some t) = 34 ∷ j.text_tail t

  -- `formatterCacheKey`
  unfoldable pub formatter_cache_key : Option Text × O → Text
  unfolding locale_json
  formatter_cache_key (locale, options) = locale_json locale ++ b':' ∷ j.options options

  -- `cachedIntlFormatter`
  unfoldable pub cached_intl_formatter {ℓ} :
      {V : Type ℓ} → (Option Text × O → Option V) → Option Text × O → Cache V → Option V × Cache V
  unfolding cached formatter_cache_key
  cached_intl_formatter create x c = cached formatter_cache_key create x c

  module _ (p : Parses O j) where
    options_apart : (a b : O) → j.options a ≡ j.options b → a ≡ b
    options_apart a b e =
        some-injective _ _ (sym (p.options_back a) ∙ ap p.read_options e ∙ p.options_back b)

    texts_apart :
        (t u : Text) (a b : O)
        → formatter_cache_key (some t, a) ≡ formatter_cache_key (some u, b)
        → (t ≡ u) × (a ≡ b)
    unfolding formatter_cache_key locale_json
    texts_apart t u a b e =
        let read : some (t, b':' ∷ j.options a) ≡ some (u, b':' ∷ j.options b) =
          sym (p.text_back t (j.options a))
          ∙ ap (λ s. p.read_tail (drop 1 s)) e
          ∙ p.text_back u (j.options b) in
        let both = some-injective _ _ read in
        (
          ap (λ (q : Text × Text). q.0) both,
          options_apart a b (ap (λ (q : Text × Text). drop 1 q.1) both),
        )

    quoted_of-key : (l : Option Text) (a : O) → is_quoted (formatter_cache_key (l, a)) ≡ is_some l
    unfolding formatter_cache_key locale_json
    quoted_of-key none a = refl
    quoted_of-key (some t) a = refl

    none_apart : (a b : O) → formatter_cache_key (none, a) ≡ formatter_cache_key (none, b) → a ≡ b
    unfolding formatter_cache_key locale_json
    none_apart a b e = options_apart a b (ap (drop 5) e)

    same_locale :
        (x y : Option Text × O)
        → formatter_cache_key x ≡ formatter_cache_key y
        → is_some x.0 ≡ is_some y.0
    same_locale (l, a) (k, b) e = sym (quoted_of-key l a) ∙ ap is_quoted e ∙ quoted_of-key k b

    -- Different locales or options have different keys.
    formatter_cache_key-apart :
        (x y : Option Text × O) → formatter_cache_key x ≡ formatter_cache_key y → x ≡ y
    formatter_cache_key-apart (none, a) (none, b) e = ap (λ (o : O). (none, o)) (none_apart a b e)
    formatter_cache_key-apart (none, a) (some t, b) e =
        absurd (let q : false ≡ true = same_locale (none, a) (some t, b) e in cc)
    formatter_cache_key-apart (some t, a) (none, b) e =
        absurd (let q : true ≡ false = same_locale (some t, a) (none, b) e in cc)
    formatter_cache_key-apart (some t, a) (some u, b) e =
        let (locale, options) = texts_apart t u a b e in
        ap₂ (λ (l : Text) (o : O). (some l, o)) locale options

    -- A call of the cached constructor with a locale, or none, and with options gives what the
    -- uncached one gives for that locale and these options, exceptions included; and it leaves a
    -- cache whose entries still agree with the calls and that holds at most 64 of them, if it found
    -- one, and if `JSON.parse` reads back what `JSON.stringify` writes. A locale that is `null` is
    -- not meant.
    pub cached_intl_formatter_lem {ℓ} :
        {V : Type ℓ} (create : Option Text × O → Option V) (x : Option Text × O) (c : Cache V)
        → Agrees formatter_cache_key create c
        → length c ≤ cache_limit
        → ((cached_intl_formatter create x c).0 ≡ create x)
          × Agrees formatter_cache_key create (cached_intl_formatter create x c).1
          × (length (cached_intl_formatter create x c).1 ≤ cache_limit)
    unfolding cached_intl_formatter
    cached_intl_formatter_lem create x c a h =
        cached-cases formatter_cache_key create formatter_cache_key-apart x c a h
