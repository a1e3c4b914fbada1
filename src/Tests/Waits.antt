-- ===== src/Tests/Waits.antt =====
-- A client of client/nastapi.c on a connection that is silent, or sends what is no response.
use nastd.Prelude.{◌≡◌, refl, arith, List, [], ◌∷◌, some, false}
use nastd.Prelude.Outcome.{returns}
use nastd.Prelude.Run.{Yields}
use nastd.Client.{
  Responses, null, nast_timedout, nast_set_error, addresponse, getmyresponse, put_response,
  checkresponse,
}
use nastd.Client.Session.{Sphincter, Arrival, got, timed_out, err}
use nastd.Client.Receive.{getresponse}
use nastd.Ipc.{nastok, nasterr}
use nastd.Client.Answers.{Answer, Fits, encode_all, AllFit}
use nastd.Client.Replies.{Reply, answers, AllWait, place_one, place_all}
use nastd.Client.Shared.{settled, getresponse_shared}
use nastd.Client.Table.{arrival}
use nastd.Client.Ends.{timeouts, quiet, getresponse_times_out}
use nastd.Client.Unheard.{reads}
use nastd.Client.Whole.{AllWhole}
use nastd.Client.Returns.{IsResult, getresponse_ends}
use nastd.Tests.Answers.{fresh, waiting}
use nastd.Tests.Exchange.{client}

-- 51 times nothing comes, and then the response
abbrev late_answer : List Arrival
late_answer = got (0 ∷ 5 ∷ 0 ∷ 2 ∷ nastok ∷ []) [] ∷ []

abbrev slow : Sphincter
slow = record client { wire = timeouts 51 late_answer }

abbrev late : Responses
late = fresh ∷ record { buffer = null; errcode = nast_timedout; arrived = false } ∷ []

missing : checkresponse waiting 2 ≡ returns false
unfolding checkresponse getmyresponse
missing = refl

sets : nast_set_error waiting 2 nast_timedout ≡ returns late
unfolding nast_set_error getmyresponse put_response
sets = refl

getresponse_times_out_example :
    getresponse 2 slow ≡ returns (err, record (quiet late_answer slow) { responses = late })
getresponse_times_out_example = getresponse_times_out 2 late_answer slow (refl, missing) refl sets

-- an answer to the other thread, a `select` without one, and then the answer
abbrev other : Answer
other = record { reqid = 1; code = nasterr; items = [] }

abbrev own : Answer
own = record { reqid = 2; code = nastok; items = 118 ∷ [] }

abbrev noisy : Sphincter
noisy = record client {
  wire = got (encode_all (other ∷ [])) [] ∷ timed_out ∷ got (encode_all (own ∷ other ∷ [])) [] ∷ [];
}

other-Fits : Fits other
other-Fits = record { by_length = omega arith; by_number = omega arith }

own-Fits : Fits own
own-Fits = record { by_length = omega arith; by_number = omega arith }

noisy_whole : AllWhole noisy.wire
noisy_whole = (
  (other ∷ [], refl, (other-Fits, tt), (omega arith, tt)),
  (
    tt,
    ((own ∷ other ∷ [], refl, (own-Fits, (other-Fits, tt)), (omega arith, (omega arith, tt))), tt),
  ),
)

getresponse_ends_example : Yields IsResult (getresponse 2 noisy)
getresponse_ends_example = getresponse_ends 2 noisy (omega arith) (omega arith) refl noisy_whole

-- sixty answers to the other thread, 51 times nothing, and then the response
abbrev crowd : Sphincter
crowd = record client { wire = reads 60 (encode_all (other ∷ [])) [] (timeouts 51 late_answer) }

-- the answers to both threads, the second thread's first
abbrev values : Reply
values = record { place = 1; code = nastok; items = 118 ∷ [] }

abbrev refusal : Reply
refusal = record { place = 0; code = nasterr; items = [] }

abbrev crowded : Sphincter
crowded = record client {
  wire = got (encode_all (answers (values ∷ refusal ∷ []))) [] ∷ timed_out ∷ [];
}

fit : AllFit (answers (values ∷ refusal ∷ []))
fit = (
  record { by_length = omega arith; by_number = omega arith },
  (record { by_length = omega arith; by_number = omega arith }, tt),
)

wait : AllWait waiting (values ∷ refusal ∷ [])
wait = (
  (fresh, record { there = refl; absent = refl }),
  omega arith,
  ((fresh, record { there = refl; absent = refl }), omega arith, tt),
)

abbrev heard_both : Sphincter
heard_both = settled (values ∷ refusal ∷ []) (timed_out ∷ []) crowded

getresponse_shared_example :
    (getresponse 1 crowded ≡ returns (err, heard_both))
    × (getresponse 1 heard_both ≡ returns (err, heard_both))
    × (getmyresponse heard_both.responses 1 ≡ returns (some (arrival 1 nasterr [])))
getresponse_shared_example =
    getresponse_shared values (refusal ∷ []) [] (timed_out ∷ []) crowded refl refl fit
      ((omega arith, tt), (tt, tt)) wait refl 1 refl

-- the table has both answers
heard_both_responses :
    heard_both.responses ≡ arrival 1 nasterr [] ∷ arrival 2 nastok (118 ∷ []) ∷ []
unfolding place_all place_one addresponse nast_set_error getmyresponse put_response
heard_both_responses = refl
