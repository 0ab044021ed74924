-- ===== src/Replays.antt =====
-- The second submission under an idempotency key (internal/planner/operations_post.go,
-- submitWithIdempotency, checkIdempotency and resolveIdempotencyConflict).
use fincore_ledger.Prelude.{
  append_assoc, ◌++◌, codes, ℕ, ◌≡◌, refl, ap, ◌∙◌, ByteString, Bool, true, false, Option, none,
  some, [], ◌∷◌, not, find?, is_empty, str_eq, str_eq_refl, if◌then◌else◌,
}
use fincore_ledger.Storage.Records.{IdempotencyKeyRecord, invalid_idempotency_input}
use fincore_ledger.Storage.World.{
  World, CachedKey, Act, Result, ok, err, done, fail_if, gets, modify, attempt, call, continue,
  ◌>>=◌, ◌>>◌,
}
use fincore_ledger.Storage.Log.{is_key, get_idempotency_key}
use fincore_ledger.Storage.Through.{call_through, bind_ok}
use fincore_ledger.Planner.Inputs.{Host, SubmitResult}
use fincore_ledger.Planner.Events.{Key}
use fincore_ledger.Planner.Submit.{
  idempotency_key, is_cached, cached_key, cache_key, hit, hit_if, bytes_of, check_database,
  check_idempotency, submit_with_idempotency, submit_new,
}

-- What is known of a key: its hash and its event, from the cache or else from the table.
abbrev pub of_row : Option IdempotencyKeyRecord → Option (ByteString × ByteString)
of_row none = none
of_row (some r) = some (r.idempotency_hash, r.event_id)

abbrev pub of_cache :
    Option CachedKey → Option IdempotencyKeyRecord → Option (ByteString × ByteString)
of_cache none row = of_row row
of_cache (some c) row = some (c.hash, c.event_id)

abbrev pub known_key : ByteString → ByteString → World → Option (ByteString × ByteString)
known_key l key w =
    of_cache (find? (is_cached l key) w.cache) (find? (is_key l key) w.tables.idempotency_keys)

-- What a submission under a known key answers.
abbrev pub replay_of : ByteString → ByteString × ByteString → Result SubmitResult
replay_of hash (stored, event_id) =
    if str_eq stored hash then ok (hit event_id) else err invalid_idempotency_input

bind_outcome :
    {A B : Type 0} (m : Act A) (f : A → Act B) (w : World) {o : Result A × World}
    → m w ≡ o
    → (m >>= f) w ≡ continue o.0 f o.1
unfolding ◌>>=◌
bind_outcome m f w e = ap (λ o. continue o.0 f o.1) e

abbrev answer_if : Bool → ByteString → Result (Option SubmitResult)
answer_if true event_id = ok (some (hit event_id))
answer_if false event_id = err invalid_idempotency_input

hit_if-answer :
    (b : Bool) (event_id : ByteString) (w : World)
    → (fail_if (not b) invalid_idempotency_input >>= λ _. done (some (hit event_id))) w
      ≡ (answer_if b event_id, w)
unfolding ◌>>=◌ fail_if done
hit_if-answer true e w = refl
hit_if-answer false e w = refl

module _ (l key hash : ByteString) where
  abbrev entry : IdempotencyKeyRecord → CachedKey
  entry r = record {
    redis_key = idempotency_key l key;
    event_id = r.event_id;
    hash = r.idempotency_hash;
  }

  -- A match of the table is cached.
  abbrev noted : Bool → IdempotencyKeyRecord → World → World
  noted true r w = record w { cache = entry r ∷ w.cache }
  noted false r w = w

  cache_key-notes :
      (r : IdempotencyKeyRecord) (w : World)
      → w.faults ≡ []
      → cache_key l key r.event_id r.idempotency_hash w ≡ (ok tt, noted true r w)
  unfolding cache_key modify
  cache_key-notes r w q = bind_ok call _ w w tt (call_through w q)

  look_cached :
      (w : World)
      → w.faults ≡ []
      → attempt (cached_key l key) w ≡ (ok (ok (find? (is_cached l key) w.cache)), w)
  unfolding attempt cached_key gets
  look_cached w q =
      ap (λ o. let (r, v) = o in (ok r, v))
        (bind_ok call (λ _. gets (λ w. find? (is_cached l key) w.cache)) w w tt (call_through w q))

  check-cached :
      (c : CachedKey) (w : World)
      → w.faults ≡ []
      → find? (is_cached l key) w.cache ≡ some c
      → check_idempotency l key hash w ≡ (answer_if (str_eq c.hash hash) c.event_id, w)
  unfolding check_idempotency hit_if
  check-cached c w q h =
      bind_ok (attempt (cached_key l key)) _ w w (ok (some c))
        (look_cached w q ∙ ap (λ o. (ok (ok o), w)) h)
      ∙ hit_if-answer (str_eq c.hash hash) c.event_id w

  after_hit :
      (b : Bool) (r : IdempotencyKeyRecord) (w : World)
      → w.faults ≡ []
      → (continue
          (answer_if b r.event_id)
          (λ result. attempt (cache_key l key r.event_id r.idempotency_hash) >> done result)
          w)
        ≡ (answer_if b r.event_id, noted b r w)
  unfolding attempt ◌>>=◌ done
  after_hit true r w q =
      ap (λ o. let (_, v) = o in (ok (some (hit r.event_id)), v)) (cache_key-notes r w q)
  after_hit false r w q = refl

  row-answer :
      (r : IdempotencyKeyRecord) (w : World)
      → w.faults ≡ []
      → (hit_if r.idempotency_hash hash r.event_id >>= λ result.
            attempt (cache_key l key r.event_id r.idempotency_hash) >> done result)
          w
        ≡ (
          answer_if (str_eq r.idempotency_hash hash) r.event_id,
          noted (str_eq r.idempotency_hash hash) r w,
        )
  unfolding hit_if
  row-answer r w q =
      bind_outcome _ _ w (hit_if-answer (str_eq r.idempotency_hash hash) r.event_id w)
      ∙ after_hit (str_eq r.idempotency_hash hash) r w q

  check-row :
      (r : IdempotencyKeyRecord) (w : World)
      → w.faults ≡ []
      → find? (is_cached l key) w.cache ≡ none
      → find? (is_key l key) w.tables.idempotency_keys ≡ some r
      → check_idempotency l key hash w ≡ (
        answer_if (str_eq r.idempotency_hash hash) r.event_id,
        noted (str_eq r.idempotency_hash hash) r w,
      )
  unfolding check_idempotency check_database hit_if get_idempotency_key gets
  check-row r w q h k =
      bind_ok (attempt (cached_key l key)) _ w w (ok none)
        (look_cached w q ∙ ap (λ o. (ok (ok o), w)) h)
      ∙ bind_ok (get_idempotency_key l key) _ w w (some r)
          (bind_ok call _ w w tt (call_through w q) ∙ ap (λ o. (ok o, w)) k)
      ∙ row-answer r w q

  abbrev answered : ByteString × ByteString → Result (Option SubmitResult)
  answered (stored, event_id) = answer_if (str_eq stored hash) event_id

  entry-known :
      (b : Bool) (r : IdempotencyKeyRecord) (w : World)
      → find? (is_cached l key) w.cache ≡ none
      → find? (is_key l key) w.tables.idempotency_keys ≡ some r
      → known_key l key (noted b r w) ≡ some (r.idempotency_hash, r.event_id)
  unfolding is_cached
  entry-known true r w h k =
      let found : find? (is_cached l key) (entry r ∷ w.cache) ≡ some (entry r) =
        simp (str_eq_refl (idempotency_key l key)) in
      ap (λ o. of_cache o (find? (is_key l key) w.tables.idempotency_keys)) found
  entry-known false r w h k =
      ap (λ o. of_cache o (find? (is_key l key) w.tables.idempotency_keys)) h ∙ ap of_row k

  noted-tables : (b : Bool) (r : IdempotencyKeyRecord) (w : World) → (noted b r w).tables ≡ w.tables
  noted-tables true r w = refl
  noted-tables false r w = refl

  abbrev answer_of : Option (ByteString × ByteString) → Result (Option SubmitResult)
  answer_of none = ok none
  answer_of (some s) = answered s

  check_by :
      (c : Option CachedKey) (r : Option IdempotencyKeyRecord) (s : ByteString × ByteString)
      (w : World)
      → w.faults ≡ []
      → find? (is_cached l key) w.cache ≡ c
      → find? (is_key l key) w.tables.idempotency_keys ≡ r
      → of_cache c r ≡ some s
      → (v : World) × ((check_idempotency l key hash w ≡ (answered s, v))
          × ((v.tables ≡ w.tables) × (known_key l key v ≡ some s)))
  check_by none none s w q h k e = cc
  check_by none (some r) s w q h k e =
      let b = str_eq r.idempotency_hash hash in
      (
        noted b r w,
        (
          check-row r w q h k ∙ ap (λ o. (answer_of o, noted b r w)) e,
          (noted-tables b r w, entry-known b r w h k ∙ e),
        ),
      )
  check_by (some c) r s w q h k e = (
    w,
    (
      check-cached c w q h ∙ ap (λ o. (answer_of o, w)) e,
      (refl, ap (λ o. of_cache o (find? (is_key l key) w.tables.idempotency_keys)) h ∙ e),
    ),
  )

replay_step :
    (b : Bool) (event_id : ByteString) (fresh : Act SubmitResult) (v : World)
    → (continue (answer_if b event_id) (λ found. elim found [ some r ↦ done r | none ↦ fresh ]) v)
      ≡ ((if b then ok (hit event_id) else err invalid_idempotency_input), v)
unfolding done
replay_step true e fresh v = refl
replay_step false e fresh v = refl

-- Where no call fails and a key is known, from the cache or else from the table, a submission under
-- it does not run: with the hash that is known it answers the event that is known as a hit, with
-- another it fails. The tables stay as they are, and the key stays known as it was.
pub submit_with_idempotency-replays :
    (host : Host) (l : ByteString) (k : Key) (event_type : ℕ) (dry_run : Bool)
    (work : Act SubmitResult) (w : World) (s : ByteString × ByteString)
    → w.faults ≡ []
    → is_empty k.key ≡ false
    → known_key l k.key w ≡ some s
    → (v : World) × ((submit_with_idempotency host l k event_type dry_run work w
          ≡ (replay_of (bytes_of k.hash) s, v))
        × ((v.tables ≡ w.tables) × (known_key l k.key v ≡ some s)))
unfolding submit_with_idempotency
submit_with_idempotency-replays host l k event_type dry_run work w s q n e =
    let fresh = submit_new host l k event_type dry_run work in
    let (v, (p, rest)) = check_by l k.key (bytes_of k.hash) _ _ s w q refl refl e in
    (
      v,
      (
        pick_looked (is_empty k.key) fresh _ w n
            ∙ bind_outcome _ _ w p
            ∙ replay_step (str_eq s.0 (bytes_of k.hash)) s.1 fresh v,
        rest,
      ),
    )
  where
    pick_looked :
        (b : Bool) (fresh looked : Act SubmitResult) (w : World)
        → b ≡ false
        → (if b then fresh else looked) w ≡ looked w
    pick_looked true f g w e = cc
    pick_looked false f g w e = refl

same_redis_key :
    (a b c : ByteString)
    → idempotency_key (a ++ (codes ":" ++ b)) c ≡ idempotency_key a (b ++ (codes ":" ++ c))
same_redis_key a b c = ap (λ s. codes "ik:" ++ s) (append_assoc a (codes ":" ++ b) (codes ":" ++ c))

known-cached :
    (l key hash event_id : ByteString) (k : ByteString) (w : World)
    → idempotency_key l key ≡ k
    → let c : CachedKey = record { redis_key = k; event_id = event_id; hash = hash } in
      known_key l key (record w { cache = c ∷ w.cache }) ≡ some (hash, event_id)
unfolding is_cached
known-cached l key hash event_id k w e =
    let c : CachedKey = record { redis_key = k; event_id = event_id; hash = hash } in
    let found : find? (is_cached l key) (c ∷ w.cache) ≡ some c = simp (e, str_eq_refl k) in
    ap (λ o. of_cache o (find? (is_key l key) w.tables.idempotency_keys)) found

-- The cache does not tell a key of a ledger whose name has a colon from a key with that colon of the
-- ledger named by what stands before it: where no call fails, a submission to the first ledger fails
-- behind the caching of the key of the second with another hash, whatever its work, and leaves the
-- tables as they were.
pub submit_with_idempotency-collides :
    (host : Host) (a b c event_id stored_hash hash : ByteString) (event_type : ℕ) (dry_run : Bool)
    (work : Act SubmitResult) (w : World)
    → w.faults ≡ []
    → is_empty c ≡ false
    → str_eq stored_hash hash ≡ false
    → (v : World) × (((cache_key a (b ++ (codes ":" ++ c)) event_id stored_hash
              >> submit_with_idempotency host
                  (a ++ (codes ":" ++ b))
                  (record { key = c; hash = some hash })
                  event_type
                  dry_run
                  work)
            w
          ≡ (err invalid_idempotency_input, v))
        × (v.tables ≡ w.tables))
unfolding cache_key modify
submit_with_idempotency-collides host a b c event_id stored_hash hash event_type dry_run work w q n
      d =
    let stored : CachedKey = record {
      redis_key = idempotency_key a (b ++ (codes ":" ++ c));
      event_id = event_id;
      hash = stored_hash;
    } in
    let cached : World = record w { cache = stored ∷ w.cache } in
    let (v, (p, rest)) =
      submit_with_idempotency-replays host (a ++ (codes ":" ++ b))
        (record { key = c; hash = some hash }) event_type dry_run work cached
        (stored_hash, event_id) q n
        (known-cached (a ++ (codes ":" ++ b)) c stored_hash event_id _ w (same_redis_key a b c)) in
    (
      v,
      (
        bind_ok (cache_key a (b ++ (codes ":" ++ c)) event_id stored_hash) _ w cached tt
              (bind_ok call _ w w tt (call_through w q))
            ∙ p
            ∙ ap (λ s. ((if s then ok (hit event_id) else err invalid_idempotency_input), v)) d,
        rest.0,
      ),
    )
