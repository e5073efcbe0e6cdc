-- ===== src/Builders/Usage/Built.antt =====
-- What the requests hold that the usage builders return.
use mizan_client_sdks.Base.{
  ℕ, ◌*◌, ◌≤◌, ◌<◌, String, ◌≡◌, sym, ap, ◌∙◌, ◌↔◌, true, Option, some, arith, ◌==◌, if◌then◌else◌,
}
use mizan_client_sdks.Python.Value.{Value, str, Fields, field, ok, get, put, get-put}
use mizan_client_sdks.Python.Runtime.{Python}
use mizan_client_sdks.Builders.Facts.{max_int64, is_bounded, event, event_time, whole_count}
use mizan_client_sdks.Builders.Facts.Ranges.{Spells, whole_count_iff}
use mizan_client_sdks.Builders.Metadata.{dict_of, validate_metadata, stripped, provider_metadata}
use mizan_client_sdks.Builders.Usage.{with_metadata, count_usage}

module _ (py : Python) where
  pub attribution_of :
      (provider provider_event_id : Value) (metadata : Option Fields) (r : Fields)
      → provider_metadata py provider provider_event_id metadata ≡ ok r
      → r
        ≡ put "provider_event_id"
            (stripped py provider_event_id)
            (put "provider" (stripped py provider) (dict_of metadata))
  unfolding provider_metadata
  attribution_of provider provider_event_id metadata r h = ground arith

  -- Attribution that is built holds the call's provider and provider event id, trimmed, whatever
  -- the caller's metadata says under these keys, and the caller's entry under every other key.
  pub provider_metadata-get :
      (provider provider_event_id : Value) (metadata : Option Fields) (r : Fields) (k : String)
      → provider_metadata py provider provider_event_id metadata ≡ ok r
      → get k r ≡ (
          if "provider_event_id" == k
          then some (stripped py provider_event_id)
          else if "provider" == k
          then some (stripped py provider)
          else get k (dict_of metadata))
  provider_metadata-get provider provider_event_id metadata r k h =
      ap (get k) (attribution_of provider provider_event_id metadata r h)
      ∙ get-put "provider_event_id" k (stripped py provider_event_id)
          (put "provider" (stripped py provider) (dict_of metadata))
      ∙ ap (λ rest. if "provider_event_id" == k then some (stripped py provider_event_id) else rest)
          (get-put "provider" k (stripped py provider) (dict_of metadata))

  -- the request of a counted feature
  pub record Counted (code : String) (source_event_id occurred_at : Value) (count : String)
      (metadata : Option Fields) (r : Fields) : Type 0 where
    pub identified : is_bounded 128 source_event_id ≡ true
    pub timed : event_time py occurred_at ≡ ok tt
    pub counted : (n : ℕ) × Spells py count n × (0 < n) × (n * 1_000 ≤ max_int64)
    pub described : validate_metadata py metadata ≡ ok tt
    pub built :
        r
        ≡ field "source_event_id" source_event_id (
            field "occurred_at" occurred_at (
              field "feature_code"
                (str code)
                (field "quantity" (str count) (with_metadata metadata))))

  passes :
      (code : String) (source_event_id occurred_at count : Value) (metadata : Option Fields)
      (r : Fields)
      → count_usage py code source_event_id occurred_at count metadata true ≡ ok r
      → (is_bounded 128 source_event_id ≡ true)
        × (event_time py occurred_at ≡ ok tt)
        × (whole_count py count ≡ ok tt)
        × (validate_metadata py metadata ≡ ok tt)
        × (field "source_event_id" source_event_id (
              field "occurred_at" occurred_at
                (field "feature_code" (str code) (field "quantity" count (with_metadata metadata))))
            ≡ r)
  unfolding count_usage event
  passes code source_event_id occurred_at count metadata r h = ground arith

  count_usage-Counted :
      (code : String) (source_event_id occurred_at : Value) (count : String)
      (metadata : Option Fields) (r : Fields)
      → count_usage py code source_event_id occurred_at (str count) metadata true ≡ ok r
      → Counted code source_event_id occurred_at count metadata r
  count_usage-Counted code source_event_id occurred_at count metadata r h =
      let (i, t, c, m, b) = passes code source_event_id occurred_at (str count) metadata r h in
      record {
        identified = i;
        timed = t;
        counted = (whole_count_iff py count).0 c;
        described = m;
        built = sym b;
      }

  Counted-count_usage :
      (code : String) (source_event_id occurred_at : Value) (count : String)
      (metadata : Option Fields) (r : Fields)
      → Counted code source_event_id occurred_at count metadata r
      → count_usage py code source_event_id occurred_at (str count) metadata true ≡ ok r
  unfolding count_usage event
  Counted-count_usage code source_event_id occurred_at count metadata r d =
      let c = (whole_count_iff py count).1 d.counted in
      let i = d.identified in
      let t = d.timed in let m = d.described in let b = d.built in rw (i, t, c, m) (ap ok (sym b))

  -- A counted request is built exactly when the event is identified and timed, the count is a
  -- positive number that fits after scaling and the metadata is valid; it then holds the arguments
  -- as given.
  pub count_usage_iff :
      (code : String) (source_event_id occurred_at : Value) (count : String)
      (metadata : Option Fields) (r : Fields)
      → (count_usage py code source_event_id occurred_at (str count) metadata true ≡ ok r)
        ↔ Counted code source_event_id occurred_at count metadata r
  count_usage_iff code source_event_id occurred_at count metadata r = (
    count_usage-Counted code source_event_id occurred_at count metadata r,
    Counted-count_usage code source_event_id occurred_at count metadata r,
  )
