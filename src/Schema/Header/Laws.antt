-- ===== src/Schema/Header/Laws.antt =====
-- The header that addHeader writes, as readHeader reads it (core/schema.cpp).
use oreo_kernel.Prelude.{
  Option, none, some, if◌then◌else◌, Result, ok, throw, runtime_error, invalid_argument, bind-ok,
  bind-inv, ap₂, ◌>>=◌, ◌≡◌, refl, ap, ◌∙◌, bytes_eq, arith, Option-cases, inl, inr,
}
use oreo_kernel.Prelude.Dict.{Dict, lookup}
use oreo_kernel.Prelude.Int.{ℤ}
use oreo_kernel.Schema.{SchemaVersion}
use oreo_kernel.Schema.Header.{
  Text, JsonLibrary, IsLawful, HeaderInfo, major_key, minor_key, patch_key, schema_key, version_key,
  kernel_version_key, current_kernel_version, version_to_json, version_from_json, read_header,
  add_header, string_at, object_at, typed_header, member, whole,
}

module _ (L : JsonLibrary) (lawful : IsLawful L) where
  member-object :
      (key : Text) (members : Dict Text L.Json) (value : L.Json)
      → lookup key members ≡ some value
      → member L key (L.object members) ≡ ok value
  member-object key members value h =
      ap (λ o. elim o [ none ↦ throw invalid_argument | some v ↦ ok v ])
        (lawful.find-object key members ∙ h)

  whole-number : (z : ℤ) → whole L (L.number z) ≡ ok z
  whole-number z =
      ap (λ o. elim o [ none ↦ throw runtime_error | some z ↦ ok z ]) (lawful.int_of-number z)

  pub version_from_json-version_to_json :
      (v : SchemaVersion) → version_from_json L (version_to_json L v) ≡ ok v
  unfolding version_from_json version_to_json lookup
  version_from_json-version_to_json v =
      bind-ok _ _ _ (member-object major_key _ (L.number v.major) refl) (
        bind-ok _ _ _ (member-object minor_key _ (L.number v.minor) refl) (
          bind-ok _ _ _ (member-object patch_key _ (L.number v.patch) refl) (
            bind-ok _ _ _ (whole-number v.major)
              (bind-ok _ _ _ (whole-number v.minor) (bind-ok _ _ _ (whole-number v.patch) refl)))))

  -- The three assignments at the end of addHeader.
  put_header : Text → SchemaVersion → L.Json → Result L.Json
  put_header type version j = do
    j ← L.assign schema_key (L.text type) j
    j ← L.assign version_key (version_to_json L version) j
    L.assign kernel_version_key (L.text current_kernel_version) j

  add_header-put_header :
      (type : Text) (version : SchemaVersion) (j j' : L.Json)
      → add_header L type version j ≡ ok j'
      → put_header type version j ≡ ok j'
  unfolding add_header put_header
  add_header-put_header type version j j' h = ground arith

  -- What three assignments leave under the three keys.
  put_header-found :
      (type : Text) (version : SchemaVersion) (j j' : L.Json)
      → put_header type version j ≡ ok j'
      → (L.find schema_key j' ≡ some (L.text type))
        × (L.find version_key j' ≡ some (version_to_json L version))
        × (L.find kernel_version_key j' ≡ some (L.text current_kernel_version))
  unfolding put_header
  put_header-found type version j j' h =
      let (j1, e1, h1) = bind-inv (L.assign schema_key (L.text type) j) _ j' h in
      let (j2, e2, h2) = bind-inv (L.assign version_key (version_to_json L version) j1) _ j' h1 in
      (
        lawful.find-assign kernel_version_key schema_key _ j2 j' h2
            ∙ (lawful.find-assign version_key schema_key _ j1 j2 e2
                ∙ lawful.find-assign schema_key schema_key _ j j1 e1),
        lawful.find-assign kernel_version_key version_key _ j2 j' h2
            ∙ lawful.find-assign version_key version_key _ j1 j2 e2,
        lawful.find-assign kernel_version_key kernel_version_key _ j2 j' h2,
      )

  string_at-text :
      (key s : Text) (j : L.Json) → L.find key j ≡ some (L.text s) → string_at L key j ≡ some s
  string_at-text key s j h =
      ap (λ o. elim o [ none ↦ none | some v ↦ L.string_of v ]) h ∙ lawful.string_of-text s

  object_at-version :
      (version : SchemaVersion) (j : L.Json)
      → L.find version_key j ≡ some (version_to_json L version)
      → object_at L version_key j ≡ some (version_to_json L version)
  unfolding version_to_json
  object_at-version version j h =
      ap (λ o. elim o [ none ↦ none | some v ↦ if L.is_object v then some v else none ]) h
      ∙ ap (λ b. if b then some (version_to_json L version) else none) (lawful.is_object-object _)

  read_header-found :
      (type : Text) (version : SchemaVersion) (s : Text) (j : L.Json)
      → L.find schema_key j ≡ some (L.text type)
      → L.find version_key j ≡ some (version_to_json L version)
      → L.find kernel_version_key j ≡ some (L.text s)
      → read_header L j ≡ ok (record { header = some (type, version); kernel_version = some s })
  unfolding read_header
  read_header-found type version s j h k l =
      bind-ok _ _ _
        (ap₂ (typed_header L) (string_at-text schema_key type j h) (object_at-version version j k)
          ∙ bind-ok _ _ _ (version_from_json-version_to_json version) refl)
        (ap (λ s. ok (record { header = some (type, version); kernel_version = s }))
          (string_at-text kernel_version_key s j l))

  -- A header that addHeader has put on a document is read back: the type, the version, and the
  -- kernel's own version.
  pub read_header-add_header :
      (type : Text) (version : SchemaVersion) (j j' : L.Json)
      → add_header L type version j ≡ ok j'
      → read_header L j'
        ≡ ok
            (record { header = some (type, version); kernel_version = some current_kernel_version })
  read_header-add_header type version j j' h =
      let found = put_header-found type version j j' (add_header-put_header type version j j' h) in
      read_header-found type version current_kernel_version j' found.0 found.1 found.2

module _ (L : JsonLibrary) where
  typed_header-found :
      (name : Option Text) (v : Option L.Json) (found : Text) (version : SchemaVersion)
      → typed_header L name v ≡ ok (some (found, version))
      → (w : L.Json) × (v ≡ some w) × (version_from_json L w ≡ ok version)
  typed_header-found none v found version h = absurd (ground arith)
  typed_header-found (some name) none found version h = absurd (ground arith)
  typed_header-found (some name) (some w) found version h =
      let (version', e, k) = bind-inv (version_from_json L w) _ (some (found, version)) h in
      (w, refl, e ∙ ground arith)

  header_inj : {a b : HeaderInfo} → ok a ≡ ok b → a.header ≡ b.header
  header_inj e = cc

  read_header-typed :
      (j : L.Json) (info : HeaderInfo)
      → read_header L j ≡ ok info
      → typed_header L (string_at L schema_key j) (object_at L version_key j) ≡ ok info.header
  unfolding read_header
  read_header-typed j info h =
      let typed = typed_header L (string_at L schema_key j) (object_at L version_key j) in
      let (header, e, k) = bind-inv typed _ info h in e ∙ ap ok (header_inj k)

  object_at-find :
      (j w : L.Json) → object_at L version_key j ≡ some w → L.find version_key j ≡ some w
  object_at-find j w o = elim (Option-cases (L.find version_key j)) [
    | inl e ↦ absurd (ground arith)
    | inr (v, e) ↦ ground arith
  ]

  -- The version of a valid header is that of the document's `_version`.
  pub read_header-version :
      (j : L.Json) (info : HeaderInfo) (found : Text) (version : SchemaVersion)
      → read_header L j ≡ ok info
      → info.header ≡ some (found, version)
      → (w : L.Json) × (L.find version_key j ≡ some w) × (version_from_json L w ≡ ok version)
  read_header-version j info found version h k =
      let (w, o, p) =
        typed_header-found (string_at L schema_key j) (object_at L version_key j) found version
          (read_header-typed j info h ∙ ap ok k) in
      (w, object_at-find j w o, p)
