-- ===== src/Identity/Sessions/Chains.antt =====
-- The chains that rotations make.
use slotnova.Base.{
  ℕ, ◌+◌, ◌≤◌, ◌≡◌, refl, sym, ◌∙◌, inl, inr, Bool, true, false, not, ◌&&◌, ◌||◌, Option, none,
  some, ◌∷◌, ◌==◌, if◌then◌else◌, is_some, Bool-cases, Option-cases, ==→eq, arith,
}
use slotnova.Base.Lists.{any, filter, All}
use slotnova.Base.Rows.{
  tally, find, update, count, find-some, any-false, count-le, count-add-le, count-update,
  count-filter, All-take, All-sort_by, any-All, All-imp, filter-All,
}
use slotnova.Identity.Sessions.{
  SessionRecord, InsertSessionInput, Sessions, References, constraints, inserted_row, has_row,
  insert, is_active, is_unrevoked, touched, revoked, touch_last_seen, find_active_by_hashed_id,
  revoke, rotate_atomically,
}
use slotnova.Identity.Sessions.Service.{
  Clocks, IssueSessionInput, Call, issuing, validating, rotating, revoking, pruning, expires_before,
  issue, issue_input, validate, rotate, next_input, revoke_token, is_child_of, is_prunable, expired,
  prune_expired_sessions, step,
}

-- The rows with an id, the revoked ones of them, and the sessions that came of it.
abbrev pub is_ended : ℕ → SessionRecord → Bool
is_ended id r = (r.id == id) && is_some r.revoked_at

abbrev pub rows : ℕ → Sessions → ℕ
rows id = count (λ r. r.id == id)

abbrev pub ended : ℕ → Sessions → ℕ
ended id = count (is_ended id)

abbrev pub children : ℕ → Sessions → ℕ
children id = count (is_child_of id)

-- An id has one row at most, and a session came of it only if it is revoked, and then only one.
abbrev pub IsChained : Sessions → Type 0
IsChained sessions = (id : ℕ) → (rows id sessions ≤ 1) × (children id sessions ≤ ended id sessions)

children-revoking :
    (p : SessionRecord → Bool) (now : ℕ) (t : Sessions) (id : ℕ)
    → children id (update p (revoked now) t) ≡ children id t
children-revoking p now t id =
    count-update p (revoked now) (is_child_of id) (is_child_of id) t
      (λ r. elim (Bool-cases (p r)) [ inl e ↦ rw e refl | inr e ↦ rw e refl ])

revoking-IsChained :
    (p : SessionRecord → Bool) (now : ℕ) (t : Sessions)
    → IsChained t
    → IsChained (update p (revoked now) t)
revoking-IsChained p now t h id =
    let same : rows id (update p (revoked now) t) ≡ rows id t =
      count-update p (revoked now) (λ r. r.id == id) (λ r. r.id == id) t
        (λ r. elim (Bool-cases (p r)) [ inl e ↦ rw e refl | inr e ↦ rw e refl ]) in
    let kin = children-revoking p now t id in
    let more : ended id (update p (revoked now) t)
        ≡ count (λ r. (r.id == id) && (p r || is_some r.revoked_at)) t =
      count-update p (revoked now) (is_ended id)
        (λ r. (r.id == id) && (p r || is_some r.revoked_at)) t
        (λ r. elim (Bool-cases (p r)) [ inl e ↦ rw e refl | inr e ↦ rw e refl ]) in
    let least =
      count-le (is_ended id) (λ r. (r.id == id) && (p r || is_some r.revoked_at)) t
        (λ r. ground arith) in
    let (one, kept) = h id in rw (same, kin, more) (one, omega arith)

touch_last_seen-IsChained :
    (now id : ℕ) (t : Sessions) → IsChained t → IsChained (touch_last_seen now id t)
unfolding touch_last_seen
touch_last_seen-IsChained now i t h id =
    rw
      (
        same (λ r. r.id == id) (λ r. refl),
        same (is_child_of id) (λ r. refl),
        same (is_ended id) (λ r. refl),
      )
      (h id)
  where
    same :
        (q : SessionRecord → Bool)
        → ((r : SessionRecord) → q (touched now r) ≡ q r)
        → count q (update (λ r. r.id == i) (touched now) t) ≡ count q t
    same q e =
        count-update (λ r. r.id == i) (touched now) q q t
          (λ r. elim (Bool-cases (r.id == i)) [ inl f ↦ rw f (e r) | inr f ↦ rw f refl ])

insert-IsChained :
    (refs : References) (now : ℕ) (input : InsertSessionInput) (t : Sessions)
    → constraints refs input t ≡ none
    → ((id : ℕ) → tally (is_child_of id (inserted_row now input)) + children id t ≤ ended id t)
    → IsChained t
    → IsChained (inserted_row now input ∷ t)
unfolding count
insert-IsChained refs now input t e room h id =
    let none_yet = any-false (λ r. r.id == input.hashed_id) t (ground arith) in
    elim (Bool-cases (input.hashed_id == id)) [
      | inl f ↦
          let same : input.hashed_id ≡ id = ==→eq input.hashed_id id f in
          let none_here : rows id t ≡ 0 = rw (sym same) none_yet in
          rw f (omega arith, omega (arith, room id))
      | inr f ↦ rw f (omega (arith, h id), omega (arith, room id))
    ]

filter-IsChained :
    (keep : ℕ → Bool) (t : Sessions)
    → ((id : ℕ) → keep id ≡ false → children id t ≡ 0)
    → IsChained t
    → IsChained (filter (λ r. keep r.id) t)
filter-IsChained keep t none_lost h id =
    let (one, kept) = h id in
    let few = count-le (λ r. (r.id == id) && keep r.id) (λ r. r.id == id) t (λ r. ground arith) in
    let fewer =
      count-le (λ r. is_child_of id r && keep r.id) (is_child_of id) t (λ r. ground arith) in
    rw
      (
        count-filter (λ r. keep r.id) (λ r. r.id == id) t,
        count-filter (λ r. keep r.id) (is_child_of id) t,
        count-filter (λ r. keep r.id) (is_ended id) t,
      )
      (
        omega arith,
        elim (Bool-cases (keep id)) [
          | inl e ↦
              let all =
                count-le (is_ended id) (λ r. is_ended id r && keep r.id) t
                  (λ r.
                    let stays : (r.id == id) ≡ true → keep r.id ≡ true =
                      λ g. rw (==→eq r.id id g) e in
                    elim (Bool-cases (r.id == id)) [
                      | inl g ↦ rw (stays g) (ground arith)
                      | inr g ↦ rw g (omega arith)
                    ]) in
              omega arith
          | inr e ↦ omega (arith, none_lost id e)
        ],
      )

prune_expired_sessions-IsChained :
    (batch_size days now : ℕ) (locked : ℕ → Bool) (t : Sessions)
    → IsChained t
    → IsChained (prune_expired_sessions batch_size days now locked t)
unfolding prune_expired_sessions expired
prune_expired_sessions-IsChained batch_size days now locked t =
    filter-IsChained (λ id. not (has_row id (expired batch_size days now locked t))) t
      (λ id e.
        let (r, is_it, gone) =
          any-All Prunable (λ r. r.id == id) (expired batch_size days now locked t) (ground arith)
            chosen in
        rw (sym (==→eq r.id id is_it)) (any-false (is_child_of r.id) t gone))
  where
    Prunable : SessionRecord → Type 0
    Prunable r = any (is_child_of r.id) t ≡ false

    gone : SessionRecord → Bool
    gone r = is_prunable days now t r && not (locked r.id)

    chosen : All Prunable (expired batch_size days now locked t)
    chosen = All-take Prunable batch_size _ (
        All-sort_by Prunable expires_before _ (
          All-imp (λ r. gone r ≡ true) Prunable (filter gone t) (λ r e. ground (arith, e))
            (filter-All gone t)))

issue-IsChained :
    (refs : References) (hash : ℕ → ℕ) (clocks : Clocks) (raw_token : ℕ) (input : IssueSessionInput)
    (t : Sessions)
    → IsChained t
    → IsChained (issue refs hash clocks raw_token input t).1
unfolding issue insert
issue-IsChained refs hash clocks raw_token input t h =
    let new = issue_input refs hash clocks raw_token input in
    elim (Option-cases (constraints refs new t)) [
      | inl e ↦ rw e (insert-IsChained refs clocks.now new t e (λ id. omega (arith, (h id).1)) h)
      | inr (x, e) ↦ rw e h
    ]

validate-IsChained :
    (refs : References) (hash : ℕ → ℕ) (clocks : Clocks) (raw_token : ℕ) (t : Sessions)
    → IsChained t
    → IsChained (validate refs hash clocks raw_token t).1
unfolding validate
validate-IsChained refs hash clocks raw_token t h =
    elim (Option-cases (find_active_by_hashed_id clocks.now (hash raw_token) t)) [
      | inl e ↦ rw e h
      | inr (r, e) ↦ rw e (touch_last_seen-IsChained clocks.now (hash raw_token) t h)
    ]

-- The session that is being rotated was not revoked before, so that none came of it.
supersede-ended :
    (now id : ℕ) (t : Sessions) {row : SessionRecord}
    → find (is_active now id) t ≡ some row
    → IsChained t
    → let superseded = update (is_active now id) (revoked now) t in
      (row.id ≡ id) × (children id superseded ≡ 0) × (1 ≤ ended id superseded)
supersede-ended now id t {row} found h =
    let (active, some_active) = find-some (is_active now id) t found in
    let (one, kept) = h id in
    let both =
      count-add-le (is_active now id) (is_ended id) (λ r. r.id == id) t (λ r. ground arith) in
    let least =
      count-le (is_active now id)
        (λ r. is_ended id (if is_active now id r then revoked now r else r)) t
        (λ r. ground arith) in
    let after =
      count-update (is_active now id) (revoked now) (is_ended id)
        (λ r. is_ended id (if is_active now id r then revoked now r else r)) t (λ r. refl) in
    (
      ground arith,
      children-revoking (is_active now id) now t id ∙ omega arith,
      rw after (omega arith),
    )

rotate-IsChained :
    (refs : References) (hash : ℕ → ℕ) (clocks : Clocks) (raw_token next_raw_token : ℕ)
    (override : Option (Option ℕ)) (t : Sessions)
    → IsChained t
    → IsChained (rotate refs hash clocks raw_token next_raw_token override t).1
unfolding rotate rotate_atomically insert
rotate-IsChained refs hash clocks raw_token next_raw_token override t h =
    let id = hash raw_token in
    let superseded = update (is_active clocks.now id) (revoked clocks.now) t in
    elim (Option-cases (find (is_active clocks.now id) t)) [
      | inl e ↦ rw e h
      | inr (row, e) ↦
          let next = next_input refs hash clocks next_raw_token override (revoked clocks.now row) in
          let (its, no_child, is_over) = supersede-ended clocks.now id t {row = row} e h in
          let kept = revoking-IsChained (is_active clocks.now id) clocks.now t h in
          elim (Option-cases (constraints refs next superseded)) [
            | inl f ↦
                rw (e, f)
                  (insert-IsChained refs clocks.now next superseded f
                    (λ i. elim (Bool-cases (row.id == i)) [
                      | inl g ↦
                          let same : id ≡ i = sym its ∙ ==→eq row.id i g in
                          let none_yet : children i superseded ≡ 0 = rw (sym same) no_child in
                          let over : 1 ≤ ended i superseded = rw (sym same) is_over in
                          rw (g, none_yet) (omega arith)
                      | inr g ↦ rw g (omega (arith, (kept i).1))
                    ])
                    kept)
            | inr (x, f) ↦ rw (e, f) h
          ]
    ]

-- Every call of the service, failed ones too, and every sweep keeps the chains of the sessions:
-- an id has one session at most, and of a session at most one other came, which it did only if
-- the session is revoked and still there.
pub step-IsChained :
    (refs : References) (hash : ℕ → ℕ) (clocks : Clocks) (call : Call) (t : Sessions)
    → IsChained t
    → IsChained (step refs hash clocks call t)
unfolding step revoke_token revoke
step-IsChained refs hash clocks (issuing raw_token input) t h =
    issue-IsChained refs hash clocks raw_token input t h
step-IsChained refs hash clocks (validating raw_token) t h =
    validate-IsChained refs hash clocks raw_token t h
step-IsChained refs hash clocks (revoking raw_token) t h =
    revoking-IsChained (is_unrevoked (hash raw_token)) clocks.now t h
step-IsChained refs hash clocks (rotating raw_token next_raw_token override) t h =
    rotate-IsChained refs hash clocks raw_token next_raw_token override t h
step-IsChained refs hash clocks (pruning batch_size days locked) t h =
    prune_expired_sessions-IsChained batch_size days clocks.now locked t h
