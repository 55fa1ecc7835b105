-- ===== src/Simulations/Balance.antt =====
-- The slots count the runs in flight, as long as no run is cancelled; a cancelled run is counted
-- down twice. A run is in flight from `_acquire_slot` to the end of its `finally`.
use lab_gateway.Prelude.{
  ℕ, ◌+◌, ◌-◌, ◌≤◌, ◌≡◌, refl, ap, Text, text_eq, text_eq_iff, text_eq_refl, Option, none, some,
  Bool, true, false, List, [], ◌∷◌, count_if, arith, Option-cases, Bool-cases, inl, inr,
  if◌then◌else◌,
}
use lab_gateway.Prelude.Table.{
  find, erase, find-erase, Distinct, Distinct-erase, count_if-erase, text_key, as_nat,
}
use lab_gateway.Simulations.{
  Entry, Server, entry_sim, acquire_slot, track_running_future, shutdown_executor, finalize,
  Outcome, rejected, ended, timed_out, end_run, Caller, cancelled, cancel_simulation,
}

pub record Job : Type 0 where
  pub sim_id : Text
  pub lab_id : Text

abbrev pub job_sim : Job → Text
job_sim j = j.sim_id

pub record System : Type 0 where
  pub server : Server
  pub jobs : List Job

-- the runs in flight on a lab
unfoldable pub in_flight : Text → List Job → ℕ
in_flight lab = count_if (λ j. text_eq lab j.lab_id)

-- the runs of any number of clients, interleaved at their awaits; simulation ids are fresh
pub data Step (limit : ℕ) : System → System → Type 0 where
  begins :
      {s : System} {t : Server} (job : Job)
      → find job_sim job.sim_id s.jobs ≡ none
      → acquire_slot limit job.lab_id s.server ≡ some t
      → Step limit s (record { server = t; jobs = job ∷ s.jobs })
  tracks :
      {s : System} (job : Job) (reservation puc : Text) (pool : Option ℕ)
      → find job_sim job.sim_id s.jobs ≡ some job
      → Step limit s (record {
        server =
            track_running_future
              (record {
                sim_id = job.sim_id;
                lab_id = job.lab_id;
                reservation_key = reservation;
                puc_hash = puc;
                executor = pool;
              })
              s.server;
        jobs = s.jobs;
      })
  ends :
      {s : System} (job : Job) (o : Outcome) (pool : Option ℕ)
      → find job_sim job.sim_id s.jobs ≡ some job
      → Step limit s (record {
        server = end_run o job.sim_id job.lab_id pool s.server;
        jobs = erase job_sim job.sim_id s.jobs;
      })

pub data Reach (limit : ℕ) (s : System) : System → Type 0 where
  here : Reach limit s s
  next : {t u : System} → Reach limit s t → Step limit t u → Reach limit s u

pub record IsBalanced (limit : ℕ) (s : System) : Type 0 where
  pub counts : (lab : Text) → s.server.active lab ≡ in_flight lab s.jobs
  pub limited : (lab : Text) → s.server.active lab ≤ limit
  pub distinct : Distinct job_sim s.jobs
  pub named :
      (sim : Text) (e : Entry)
      → find entry_sim sim s.server.running ≡ some e
      → (j : Job) × (find job_sim sim s.jobs ≡ some j) × (j.lab_id ≡ e.lab_id)

begin-IsBalanced :
    {limit : ℕ} {s : System} {t : Server} (job : Job)
    → find job_sim job.sim_id s.jobs ≡ none
    → acquire_slot limit job.lab_id s.server ≡ some t
    → IsBalanced limit s
    → IsBalanced limit (record { server = t; jobs = job ∷ s.jobs })
unfolding acquire_slot in_flight find
begin-IsBalanced {limit} {s} {t} job fresh got b = record {
  counts = λ lab. ground (
    arith,
    b.counts lab,
    b.counts job.lab_id,
    text_eq_iff job.lab_id lab,
    text_eq_iff lab job.lab_id,
  );
  limited = λ lab. ground (arith, b.limited lab, text_eq_iff job.lab_id lab);
  distinct = (fresh, b.distinct);
  named = λ sim e h.
      let (j, f, l) = b.named sim e (ground (arith, got, h)) in
      (j, ground (arith, f, fresh, text_eq_iff job.sim_id sim), l);
}

shutdown_executor_keeps :
    (pool : Option ℕ) (force : Bool) (s : Server)
    → ((shutdown_executor pool force s).active ≡ s.active)
      × ((shutdown_executor pool force s).running ≡ s.running)
unfolding shutdown_executor
shutdown_executor_keeps none force s = (refl, refl)
shutdown_executor_keeps (some p) force s = (refl, refl)

-- The lab that a finished run releases, when the registry names that lab or has no entry for it.
abbrev Releases : Text → Text → Server → Server → Type 0
Releases sim lab s t =
    ((l : Text) → t.active l ≡ (if text_eq lab l then s.active lab - 1 else s.active l))
    × ((k : Text)
        → find entry_sim k t.running ≡ (if text_eq sim k then none else find entry_sim k s.running))

finalize_found :
    (sim : Text) (fallback : Option Text) (s : Server) (e : Entry)
    → find entry_sim sim s.running ≡ some e
    → Releases sim e.lab_id s (finalize sim fallback s)
unfolding finalize
finalize_found sim fallback s e found =
    let keeps = shutdown_executor_keeps e.executor false (record {
      active = s.active;
      running = erase entry_sim sim s.running;
      stopped = s.stopped;
    }) in
    rw (found, finalize)
      (λ l. rw (keeps.0) refl, λ k. rw keeps.1 (find-erase entry_sim sim k s.running))

finalize-Releases :
    (sim lab : Text) (s : Server)
    → ((e : Entry) → find entry_sim sim s.running ≡ some e → lab ≡ e.lab_id)
    → Releases sim lab s (finalize sim (some lab) s)
unfolding finalize
finalize-Releases sim lab s same = elim (Option-cases (find entry_sim sim s.running)) [
  | inl gone ↦ rw (gone, finalize) (λ l. refl, λ k. ground (arith, text_eq_iff sim k))
  | inr (e, found) ↦ rw (same e found) (finalize_found sim (some e.lab_id) s e found)
]

end_run-Releases :
    (o : Outcome) (sim lab : Text) (pool : Option ℕ) (s : Server)
    → ((e : Entry) → find entry_sim sim s.running ≡ some e → lab ≡ e.lab_id)
    → Releases sim lab s (end_run o sim lab pool s)
unfolding end_run
end_run-Releases timed_out sim lab pool s same =
    let keeps = shutdown_executor_keeps pool true s in
    let r =
      finalize-Releases sim lab (shutdown_executor pool true s) (λ e h. same e (rw keeps.1 at h)) in
    (λ l. rw (keeps.0) at (r.0 l), λ k. rw keeps.1 at (r.1 k))
end_run-Releases rejected sim lab pool s same = finalize-Releases sim lab s same
end_run-Releases ended sim lab pool s same = finalize-Releases sim lab s same

end-IsBalanced :
    {limit : ℕ} {s : System} (job : Job) (o : Outcome) (pool : Option ℕ)
    → find job_sim job.sim_id s.jobs ≡ some job
    → IsBalanced limit s
    → IsBalanced limit (record {
      server = end_run o job.sim_id job.lab_id pool s.server;
      jobs = erase job_sim job.sim_id s.jobs;
    })
unfolding in_flight
end-IsBalanced {limit} {s} job o pool there b = record {
  counts = λ lab. ground (
    arith,
    released.0 lab,
    b.counts lab,
    b.counts job.lab_id,
    fewer lab,
    fewer job.lab_id,
    text_eq_iff job.lab_id lab,
    text_eq_iff lab job.lab_id,
    text_eq_refl lab,
  );
  limited = λ lab. ground (arith, released.0 lab, b.limited lab, b.limited job.lab_id);
  distinct = Distinct-erase job_sim job.sim_id s.jobs b.distinct;
  named = λ sim e h.
      let (j, f, l) = b.named sim e (ground (arith, released.1 sim, h)) in
      (j, ground (arith, released.1 sim, h, f, find-erase job_sim job.sim_id sim s.jobs), l);
}
  where
    released :
        Releases job.sim_id job.lab_id s.server (end_run o job.sim_id job.lab_id pool s.server)
    released =
        end_run-Releases o job.sim_id job.lab_id pool s.server
          λ e h. let (j, f, l) = b.named job.sim_id e h in cc (f, there, l)

    fewer :
        (lab : Text)
        → count_if (λ j. text_eq lab j.lab_id) (erase job_sim job.sim_id s.jobs)
            + as_nat (text_eq lab job.lab_id)
          ≡ count_if (λ j. text_eq lab j.lab_id) s.jobs
    fewer lab =
        count_if-erase job_sim job.sim_id (λ j. text_eq lab j.lab_id) s.jobs job b.distinct there

track-IsBalanced :
    {limit : ℕ} {s : System} (job : Job) (e : Entry)
    → e.sim_id ≡ job.sim_id
    → e.lab_id ≡ job.lab_id
    → find job_sim job.sim_id s.jobs ≡ some job
    → IsBalanced limit s
    → IsBalanced limit (record { server = track_running_future e s.server; jobs = s.jobs })
unfolding track_running_future find
track-IsBalanced {limit} {s} job e same_sim same_lab there b = record {
  counts = b.counts;
  limited = b.limited;
  distinct = b.distinct;
  named = λ sim e' h. elim (Bool-cases (text_eq e.sim_id sim)) [
    | inl hit ↦ (job, ground (arith, text_eq_iff e.sim_id sim), ground arith)
    | inr miss ↦ b.named sim e' (ground (arith, find-erase entry_sim e.sim_id sim s.server.running))
  ];
}

-- Every step of uncancelled runs keeps the counters equal to the runs in flight.
Step-IsBalanced :
    {limit : ℕ} {s t : System} → Step limit s t → IsBalanced limit s → IsBalanced limit t
Step-IsBalanced (begins job fresh got) b = begin-IsBalanced job fresh got b
Step-IsBalanced (tracks job reservation puc pool there) b = track-IsBalanced job _ refl refl there b
Step-IsBalanced (ends job o pool there) b = end-IsBalanced job o pool there b

Reach-IsBalanced :
    {limit : ℕ} {s t : System} → IsBalanced limit s → Reach limit s t → IsBalanced limit t
Reach-IsBalanced b here = b
Reach-IsBalanced b (next r st) = Step-IsBalanced st (Reach-IsBalanced b r)

-- the server at the start
abbrev pub init : System
init = record { server = record { active = λ _. 0; running = []; stopped = [] }; jobs = [] }

init-IsBalanced : (limit : ℕ) → IsBalanced limit init
unfolding find in_flight
init-IsBalanced limit = record {
  counts = λ lab. refl;
  limited = λ lab. omega arith;
  distinct = tt;
  named = λ sim e h. cc;
}

-- Whatever runs begin, are tracked and end, in any order and with any outcome, as long as none is
-- cancelled: the counter of each lab is the number of its runs in flight, and never above the limit.
pub slots_count_runs :
    (limit : ℕ) (s : System) (lab : Text)
    → Reach limit init s
    → (s.server.active lab ≡ in_flight lab s.jobs) × (in_flight lab s.jobs ≤ limit)
slots_count_runs limit s lab r =
    let b = Reach-IsBalanced (init-IsBalanced limit) r in
    (b.counts lab, omega (arith, b.counts lab, b.limited lab))

cancelled_state :
    (c : Caller) (sim : Text) (s t : Server) (e : Entry)
    → find entry_sim sim s.running ≡ some e
    → cancel_simulation c sim s ≡ cancelled t
    → t ≡ finalize sim none (shutdown_executor e.executor true s)
unfolding cancel_simulation
cancelled_state c sim s t e there done = ground arith

-- When a run that holds a slot is cancelled and then comes to its own `finally`, where the counter
-- of its lab was at least two it has gone down by two, though one run has left.
pub cancel_releases_twice :
    (c : Caller) (o : Outcome) (sim lab : Text) (pool : Option ℕ) (s t : Server) (e : Entry)
    → find entry_sim sim s.running ≡ some e
    → e.lab_id ≡ lab
    → cancel_simulation c sim s ≡ cancelled t
    → 2 ≤ s.active lab
    → (end_run o sim lab pool t).active lab + 2 ≡ s.active lab
cancel_releases_twice c o sim lab pool s t e there same done enough =
    let stopped = shutdown_executor e.executor true s in
    let keeps = shutdown_executor_keeps e.executor true s in
    let first = finalize_found sim none stopped e (rw keeps.1 there) in
    let shape = cancelled_state c sim s t e there done in
    let second =
      end_run-Releases o sim lab pool t
        (λ e' h. absurd (cc (h, shape, first.1 sim, text_eq_refl sim))) in
    ground (
      arith,
      second.0 lab,
      ap (λ (u : Server). u.active lab) shape,
      first.0 lab,
      ap (λ (f : Text → ℕ). f lab) keeps.0,
      text_eq_refl lab,
      text_eq_iff e.lab_id lab,
      ap (λ (f : Text → ℕ). f e.lab_id) keeps.0,
    )
