-- ===== src/Notifier/Files.antt =====
-- The state file of the notifier: what a save keeps, and what a load reads back.
use omegahive.Base.{
  ℕ, String, ◌≡◌, refl, sym, ap, ◌∙◌, subst, false, Option, none, some, [], ◌∷◌, arith, ◌==◌,
  ==_iff, if◌then◌else◌, ℤ, Dict, put, is_empty,
}
use omegahive.Events.Json.{Json, obj, end, field, Payload, get_field, as_text, get_text, as_json}
use omegahive.Events.Log.{set_field}
use omegahive.Notifier.Cursor.{
  RunCursor, File, blob, cursor_rows, cursors_in, load, dict_or_empty, load_heartbeat, thread_rows,
  load_threads, cursors_json, keep_threads, save, threads_json, save_threads,
}
use omegahive.Notifier.Heartbeat.{
  RunHeartbeat, PortfolioHeartbeat, nat_json, as_nat, counts_json, run_to_dict, counts_in,
  run_from_dict, runs_json, to_dict, runs_from, from_dict,
}

-- The five counts, in their order.
abbrev pub five : (q b e r x : ℤ) → Dict ℤ
five q b e r x =
    ("question", q) ∷ ("blocked", b) ∷ ("escalated", e) ∷ ("result", r) ∷ ("exit", x) ∷ []

abbrev pub IsTally : RunHeartbeat → Type 0
IsTally hb = (q : ℤ) × (b : ℤ) × (e : ℤ) × (r : ℤ) × (x : ℤ) × (hb.counts ≡ five q b e r x)

abbrev pub AreTallies : Dict RunHeartbeat → Type 0
AreTallies [] = Unit {0}
AreTallies ((run, hb) ∷ d) = IsTally hb × AreTallies d

five-back : (q b e r x : ℤ) → counts_in (some (obj (counts_json (five q b e r x)))) ≡ five q b e r x
unfolding counts_json get_field put ◌==◌
five-back q b e r x = refl

as_nat-nat_json : (n : Option ℕ) → as_nat (some (nat_json n)) ≡ n
as_nat-nat_json none = refl
as_nat-nat_json (some n) = refl

text-back : (t : Option String) → as_text (some (as_json t)) ≡ t
text-back none = refl
text-back (some s) = refl

run-back : (hb : RunHeartbeat) → IsTally hb → run_from_dict (run_to_dict hb) ≡ hb
unfolding run_from_dict run_to_dict get_field ◌==◌
run-back hb (q, b, e, r, x, is_five) =
    let counted =
      subst (λ d. counts_in (some (obj (counts_json d))) ≡ d) (sym is_five) (five-back q b e r x) in
    λ i. record { head = as_nat-nat_json hb.head i; counts = counted i }

runs-back : (d : Dict RunHeartbeat) → AreTallies d → runs_from (runs_json d) ≡ d
unfolding runs_from runs_json
runs-back [] h = refl
runs-back ((run, hb) ∷ d) (h, hs) = rw (run-back hb h) (rw (runs-back d hs) refl)

-- The portfolio's tallies survive being written and read.
from_dict-to_dict : (hb : PortfolioHeartbeat) → AreTallies hb.runs → from_dict (to_dict hb) ≡ hb
unfolding from_dict to_dict get_field get_text ◌==◌
from_dict-to_dict hb h = λ i. record {
  last_date = text-back hb.last_date i;
  last_hour = as_nat-nat_json hb.last_hour i;
  runs = runs-back hb.runs h i;
}

cursors-back : (d : Dict RunCursor) → cursor_rows (cursors_json d) ≡ d
unfolding cursor_rows cursors_json get_field ◌==◌
cursors-back [] = refl
cursors-back ((run, rc) ∷ d) = λ i.
    (
      run,
      record { cursor = as_nat-nat_json rc.cursor i; generation = as_nat-nat_json rc.generation i },
    )
    ∷ cursors-back d i

kept_threads :
    (j : Option Json)
    → thread_rows (dict_or_empty (get_field "threads" (keep_threads j)))
      ≡ thread_rows (dict_or_empty j)
unfolding thread_rows get_field ◌==◌
kept_threads none = refl
kept_threads (some (obj fs)) = refl
kept_threads (some _) = refl

no_heartbeat : (j : Option Json) → get_field "heartbeat" (keep_threads j) ≡ none
unfolding get_field ◌==◌
no_heartbeat (some (obj fs)) = refl
no_heartbeat none = refl
no_heartbeat (some _) = refl

-- A save of the cursors and the tallies is read back as it was, and keeps the thread map of the
-- file that it replaces. Each tally has the five counts.
pub load-save :
    (cursors : Dict RunCursor) (hb : PortfolioHeartbeat) (file : File)
    → AreTallies hb.runs
    → (load (save cursors (some hb) file) ≡ cursors)
      × (load_heartbeat (save cursors (some hb) file) ≡ hb)
      × (load_threads (save cursors (some hb) file) ≡ load_threads file)
unfolding load load_heartbeat load_threads save get_field ◌==◌
load-save cursors hb file h =
    (cursors-back cursors, from_dict-to_dict hb h, kept_threads (get_field "threads" (blob file)))

get_field-set_field :
    (k j : String) (v : Json) (fs : Payload)
    → get_field j (set_field k v fs) ≡ (if k == j then some v else get_field j fs)
unfolding get_field set_field
get_field-set_field k j v end = refl
get_field-set_field k j v (field i w fs) =
    ground (arith, ==_iff k j, ==_iff i k, ==_iff i j, get_field-set_field k j v fs)

-- No thread has an empty timestamp.
abbrev pub AreNamed : Dict String → Type 0
AreNamed [] = Unit {0}
AreNamed ((key, ts) ∷ d) = (is_empty ts ≡ false) × AreNamed d

threads-back : (d : Dict String) → AreNamed d → thread_rows (threads_json d) ≡ d
unfolding thread_rows threads_json
threads-back [] h = refl
threads-back ((key, ts) ∷ d) (h, hs) =
    let kept : thread_rows (threads_json ((key, ts) ∷ d))
        ≡ (key, ts) ∷ thread_rows (threads_json d) =
      ground arith in
    kept ∙ ap (◌∷◌ (key, ts)) (threads-back d hs)

-- A save of the thread map is read back as it was, and keeps the cursors and the tallies of the
-- file. No timestamp is empty.
pub load-save_threads :
    (threads : Dict String) (file : File)
    → AreNamed threads
    → (load_threads (save_threads threads file) ≡ threads)
      × (load (save_threads threads file) ≡ load file)
      × (load_heartbeat (save_threads threads file) ≡ load_heartbeat file)
unfolding load load_heartbeat load_threads save_threads ◌==◌
load-save_threads threads file h =
    let v = obj (threads_json threads) in
    let fs = blob file in
    (
      ap (λ j. thread_rows (dict_or_empty j)) (get_field-set_field "threads" "threads" v fs)
          ∙ threads-back threads h,
      ap cursors_in (get_field-set_field "threads" "runs" v fs),
      ap (λ j. from_dict (dict_or_empty j)) (get_field-set_field "threads" "heartbeat" v fs),
    )
