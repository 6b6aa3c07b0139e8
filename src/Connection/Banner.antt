-- ===== src/Connection/Banner.antt =====
-- What one side's connection string tells the other side, in adb.cpp and transport.cpp.
use adb_src.Base.{
  ℕ, true, false, Option, some, List, [], ◌∷◌, ◌++◌, ◌==◌, Bytes, bytes_eq, ◌≡◌, refl, sym, ap, ◌∙◌,
  arith, subst,
}
use adb_src.LibBase.{
  LibBase, IsLibBase, lacks, contains, Lacks, contains-Lacks, lacks-append, lacks-join, split-join,
}
use adb_src.Connection.Features.{string_to_feature_set-contains}
use adb_src.Connection.{
  Build, host_build, device_build, Connection, product_key, model_key, device_key, features_key,
  c_str, known_features, supported_features, feature_set_to_string, string_to_feature_set,
  set_features, has_feature, pair, property_pairs, connection_properties, get_connection_string,
  overwrite, take_pair, parse_prop, parse_props, parse_pieces, state_of, set_connection_state,
  parse_banner,
}

pub c_str-lacks : (s : Bytes) → lacks 0 s ≡ true → c_str s ≡ s
unfolding c_str lacks
c_str-lacks [] p = refl
c_str-lacks (c ∷ s) p = ground (arith, c_str-lacks s (ground arith))

-- The text has none of the bytes by which the banner is taken apart.
abbrev pub Plain : Bytes → Type 0
Plain s = (lacks 0 s ≡ true) × (lacks b':' s ≡ true) × (lacks b';' s ≡ true) × (lacks b'=' s ≡ true)

abbrev pub Sendable : Bytes → Type 0
Sendable s = (lacks 0 s ≡ true) × (lacks b':' s ≡ true) × (lacks b';' s ≡ true)

module _ (b : LibBase) where
  -- The values that a build sends; a host has none.
  abbrev pub SendsPlain : Build → Type 0
  SendsPlain host_build = Unit {0}
  SendsPlain device_build =
      Plain (b.get_property product_key)
      × Plain (b.get_property model_key)
      × Plain (b.get_property device_key)

  -- A field of the other side's transport, by the key that it sends.
  abbrev pub told : Build → Bytes → Option Bytes → Option Bytes
  told host_build key old = old
  told device_build key old = some (b.get_property key)

  -- The receiver's view of a sender of this build that calls itself `banner`.
  pub record IsDescribed (build : Build) (banner : Bytes) (c c' : Connection) : Type 0 where
    pub state : c'.transport.connection_state ≡ state_of banner
    pub product : c'.transport.product ≡ told build product_key c.transport.product
    pub model : c'.transport.model ≡ told build model_key c.transport.model
    pub device : c'.transport.device ≡ told build device_key c.transport.device
    pub features : (f : Bytes) → has_feature c' f ≡ contains f known_features
    pub serial : c'.transport.serial ≡ c.transport.serial
    pub devpath : c'.transport.devpath ≡ c.transport.devpath
    pub type : c'.transport.type ≡ c.transport.type
    pub online : c'.online ≡ c.online
    pub protocol_version : c'.protocol_version ≡ c.protocol_version
    pub max_payload : c'.max_payload ≡ c.max_payload
    pub keys : c'.keys ≡ c.keys

module _ (b : LibBase) (v : IsLibBase b) where
  parse_prop-pair :
      (key value : Bytes) (c : Connection)
      → lacks b'=' key ≡ true
      → lacks b'=' value ≡ true
      → parse_prop b (pair key value) c ≡ overwrite b key value c
  unfolding parse_prop take_pair
  parse_prop-pair [] value c p q = rw (v.split_more b'=' [] value p, v.split_one b'=' value q) refl
  parse_prop-pair (x ∷ key) value c p q =
      rw (v.split_more b'=' (x ∷ key) value p, v.split_one b'=' value q) refl

  keys-Plain :
      (product : Plain product_key) × (model : Plain model_key) × (device : Plain device_key)
      × Plain features_key
  unfolding product_key model_key device_key features_key lacks
  keys-Plain = (
    (refl, refl, refl, refl),
    (refl, refl, refl, refl),
    (refl, refl, refl, refl),
    (refl, refl, refl, refl),
  )

  known-Lacks :
      Lacks 0 known_features
      × Lacks b':' known_features
      × Lacks b';' known_features
      × Lacks b'=' known_features
      × Lacks b',' known_features
  unfolding known_features lacks
  known-Lacks = (
    (refl, (refl, (refl, tt))),
    (refl, (refl, (refl, tt))),
    (refl, (refl, (refl, tt))),
    (refl, (refl, (refl, tt))),
    (refl, (refl, (refl, tt))),
  )

  supported-Lacks : (d : ℕ) → Lacks d known_features → Lacks d (supported_features b)
  unfolding supported_features
  supported-Lacks d p =
      contains-Lacks d (b.set_of known_features) known_features p
        (λ f h. sym (v.set_members f known_features) ∙ h)

  features_text : Bytes
  features_text = feature_set_to_string b (supported_features b)

  features_text-lacks :
      (d : ℕ) → (b',' == d) ≡ false → Lacks d known_features → lacks d features_text ≡ true
  unfolding features_text feature_set_to_string
  features_text-lacks d differ p =
      lacks-join b v b',' d (supported_features b) differ (supported-Lacks d p)

  features_text-Plain : Plain features_text
  features_text-Plain = (
    features_text-lacks 0 refl known-Lacks.0,
    features_text-lacks b':' refl known-Lacks.1,
    features_text-lacks b';' refl known-Lacks.2,
    features_text-lacks b'=' refl known-Lacks.3,
  )

  pair-lacks :
      (d : ℕ) (key value : Bytes)
      → (b'=' == d) ≡ false
      → lacks d key ≡ true
      → lacks d value ≡ true
      → lacks d (pair key value) ≡ true
  unfolding lacks
  pair-lacks d key value differ p q = lacks-append d key (b'=' ∷ value) p (ground arith)

  connection_properties-text :
      (build : Build)
      → connection_properties b build
        ≡ property_pairs b build ++ (pair features_key features_text ∷ [])
  unfolding connection_properties features_text
  connection_properties-text build =
      ap (λ s. property_pairs b build ++ (pair features_key s ∷ []))
        (c_str-lacks features_text features_text-Plain.0)

  pair-Sendable : (key value : Bytes) → Plain key → Plain value → Sendable (pair key value)
  pair-Sendable key value p q = (
    pair-lacks 0 key value refl p.0 q.0,
    pair-lacks b':' key value refl p.1 q.1,
    pair-lacks b';' key value refl p.2 q.2,
  )

  properties-Lacks :
      (build : Build)
      → SendsPlain b build
      → Lacks 0 (connection_properties b build)
        × Lacks b':' (connection_properties b build)
        × Lacks b';' (connection_properties b build)
  unfolding property_pairs
  properties-Lacks host_build s =
      let (f0, f1, f2) =
        pair-Sendable features_key features_text keys-Plain.3 features_text-Plain in
      rw (connection_properties-text host_build) ((f0, tt), (f1, tt), (f2, tt))
  properties-Lacks device_build s =
      let (p0, p1, p2) = pair-Sendable product_key (b.get_property product_key) keys-Plain.0 s.0 in
      let (m0, m1, m2) = pair-Sendable model_key (b.get_property model_key) keys-Plain.1 s.1 in
      let (d0, d1, d2) = pair-Sendable device_key (b.get_property device_key) keys-Plain.2 s.2 in
      let (f0, f1, f2) =
        pair-Sendable features_key features_text keys-Plain.3 features_text-Plain in
      rw (connection_properties-text device_build)
        ((p0, (m0, (d0, (f0, tt)))), (p1, (m1, (d1, (f1, tt)))), (p2, (m2, (d2, (f2, tt)))))

  -- What parse_banner does with the properties of the other side, in their order.
  overwrite_all : Build → Connection → Connection
  overwrite_all host_build c = overwrite b features_key features_text c
  overwrite_all device_build c = overwrite b features_key features_text (
      overwrite b device_key (b.get_property device_key) (
        overwrite b model_key (b.get_property model_key)
          (overwrite b product_key (b.get_property product_key) c)))

  parse_props-properties :
      (build : Build) (c : Connection)
      → SendsPlain b build
      → parse_props b (connection_properties b build) c ≡ overwrite_all build c
  unfolding parse_props property_pairs overwrite_all
  parse_props-properties host_build c s =
      rw (connection_properties-text host_build)
        (parse_prop-pair features_key features_text c keys-Plain.3.3 features_text-Plain.3)
  parse_props-properties device_build c s =
      let c1 = overwrite b product_key (b.get_property product_key) c in
      let c2 = overwrite b model_key (b.get_property model_key) c1 in
      let c3 = overwrite b device_key (b.get_property device_key) c2 in
      rw
        (
          connection_properties-text device_build,
          parse_prop-pair product_key (b.get_property product_key) c keys-Plain.0.3 s.0.3,
          parse_prop-pair model_key (b.get_property model_key) c1 keys-Plain.1.3 s.1.3,
          parse_prop-pair device_key (b.get_property device_key) c2 keys-Plain.2.3 s.2.3,
        )
        (parse_prop-pair features_key features_text c3 keys-Plain.3.3 features_text-Plain.3)

  overwrite_features :
      (c : Connection) → overwrite b features_key features_text c ≡ set_features b features_text c
  unfolding overwrite bytes_eq product_key model_key device_key features_key
  overwrite_features c = refl

  overwrite_device :
      (c : Connection) (x : Bytes)
      → overwrite b device_key x c
        ≡ record c { transport = record c.transport { device = some (c_str x) } }
  unfolding overwrite bytes_eq product_key model_key device_key
  overwrite_device c x = refl

  overwrite_model :
      (c : Connection) (x : Bytes)
      → overwrite b model_key x c
        ≡ record c { transport = record c.transport { model = some (c_str x) } }
  unfolding overwrite bytes_eq product_key model_key
  overwrite_model c x = refl

  overwrite_product :
      (c : Connection) (x : Bytes)
      → overwrite b product_key x c
        ≡ record c { transport = record c.transport { product = some (c_str x) } }
  unfolding overwrite bytes_eq product_key
  overwrite_product c x = refl

  names_there : contains [] known_features ≡ false
  unfolding known_features contains bytes_eq
  names_there = refl

  features_text-known :
      (f : Bytes) → contains f (string_to_feature_set b features_text) ≡ contains f known_features
  unfolding features_text supported_features
  features_text-known f =
      string_to_feature_set-contains b v f (supported_features b)
        (supported-Lacks b',' known-Lacks.4) (v.set_members [] known_features ∙ names_there)
      ∙ v.set_members f known_features

  overwrite_all-IsDescribed :
      (build : Build) (banner : Bytes) (c : Connection)
      → SendsPlain b build
      → IsDescribed b build banner c
          (set_connection_state (state_of banner) (overwrite_all build (set_features b [] c)))
  unfolding overwrite_all set_features has_feature
  overwrite_all-IsDescribed host_build banner c s = rw (overwrite_features) record {
    state = refl;
    product = refl;
    model = refl;
    device = refl;
    features = features_text-known;
    serial = refl;
    devpath = refl;
    type = refl;
    online = refl;
    protocol_version = refl;
    max_payload = refl;
    keys = refl;
  }
  overwrite_all-IsDescribed device_build banner c s =
      let c0 = set_features b [] c in
      let c1 = overwrite b product_key (b.get_property product_key) c0 in
      let c2 = overwrite b model_key (b.get_property model_key) c1 in
      let c3 = overwrite b device_key (b.get_property device_key) c2 in
      rw
        (
          overwrite_features c3,
          overwrite_device c2 (b.get_property device_key),
          overwrite_model c1 (b.get_property model_key),
          overwrite_product c0 (b.get_property product_key),
          c_str-lacks (b.get_property device_key) s.2.0,
          c_str-lacks (b.get_property model_key) s.1.0,
          c_str-lacks (b.get_property product_key) s.0.0,
        )
        record {
          state = refl;
          product = refl;
          model = refl;
          device = refl;
          features = features_text-known;
          serial = refl;
          devpath = refl;
          type = refl;
          online = refl;
          protocol_version = refl;
          max_payload = refl;
          keys = refl;
        }

  banner_pieces :
      (build : Build) (banner : Bytes)
      → lacks b':' banner ≡ true
      → SendsPlain b build
      → b.split (get_connection_string b build banner) b':'
        ≡ banner ∷ [] ∷ b.join (connection_properties b build) b';' ∷ []
  unfolding get_connection_string lacks
  banner_pieces build banner p s =
      let text = b.join (connection_properties b build) b';' in
      let (zeros, colons, _) = properties-Lacks build s in
      let whole : c_str text ≡ text =
        c_str-lacks text (lacks-join b v b';' 0 (connection_properties b build) refl zeros) in
      rw
        (
          whole,
          v.split_more b':' banner (b':' ∷ text) p,
          v.split_more b':' [] text refl,
          v.split_one b':' text
              (lacks-join b v b';' b':' (connection_properties b build) refl colons),
        )
        refl

  properties-nonempty :
      (build : Build) → (p : Bytes) × (l : List Bytes) × (connection_properties b build ≡ p ∷ l)
  unfolding property_pairs connection_properties
  properties-nonempty host_build = (_, _, refl)
  properties-nonempty device_build = (_, _, refl)

  -- parse_banner reads the connection string of the other side back: it sets the state that the
  -- banner names, the features that the other side supports, whatever they were before, and, from a
  -- device, its product, model and device; it changes nothing else. The banner has no colon, and
  -- the values that a device sends have no NUL, colon, semicolon or equals sign.
  pub parse_banner-IsDescribed :
      (build : Build) (banner : Bytes) (c : Connection)
      → lacks b':' banner ≡ true
      → SendsPlain b build
      → IsDescribed b build banner c (parse_banner b (get_connection_string b build banner) c)
  unfolding parse_banner parse_pieces
  parse_banner-IsDescribed build banner c p s =
      let (q, l, e) = properties-nonempty build in
      let (_, _, semicolons) = properties-Lacks build s in
      let parted : b.split (b.join (connection_properties b build) b';') b';'
          ≡ connection_properties b build =
        rw e (split-join b v b';' q l (subst (Lacks b';') e semicolons)) in
      rw
        (
          banner_pieces build banner p s,
          parted,
          parse_props-properties build (set_features b [] c) s,
        )
        (overwrite_all-IsDescribed build banner c s)
