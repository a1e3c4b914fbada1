-- ===== src/Tests/Answers.antt =====
-- Responses in the client of client/nastapi.c.
use nastd.Prelude.{◌≡◌, refl, arith, [], ◌∷◌, some, true, false}
use nastd.Prelude.Fields.{join}
use nastd.Prelude.Outcome.{returns, fault}
use nastd.Ipc.{nastsep, nastok}
use nastd.Client.{
  NastResponse, Responses, null, freed, nast_ok, NastArray, build_result, result_items,
  nast_array_new, nast_array_add, nast_string_new, addresponse, nast_set_error, getmyresponse,
  put_response, delresponse, checkresponse,
}
use nastd.Client.Number.{thread_id, thread_id-shares}
use nastd.Client.Table.{arrival, delresponse_twice}

abbrev items : NastArray
items = (97 ∷ []) ∷ [] ∷ (98 ∷ []) ∷ []

parsed : (build_result (join nastsep items) []).0 ≡ some items
unfolding build_result result_items join nast_array_new nast_array_add nast_string_new
parsed = refl

abbrev pub fresh : NastResponse
fresh = record { buffer = null; errcode = nast_ok; arrived = false }

abbrev pub waiting : Responses
waiting = fresh ∷ fresh ∷ []

abbrev answered : Responses
answered = fresh ∷ arrival 2 nastok (97 ∷ []) ∷ []

arrives : addresponse waiting 2 nastok (97 ∷ []) [] ≡ returns ((true, answered), [])
unfolding addresponse nast_set_error getmyresponse put_response
arrives = refl

abbrev deleted : Responses
deleted = fresh ∷ record { buffer = freed; errcode = nast_ok; arrived = false } ∷ []

there : getmyresponse answered 2 ≡ returns (some (arrival 2 nastok (97 ∷ [])))
unfolding getmyresponse
there = refl

deletes : delresponse answered 2 ≡ returns deleted
unfolding delresponse getmyresponse put_response
deletes = refl

delresponse_twice_example : delresponse deleted 2 ≡ fault
delresponse_twice_example =
    delresponse_twice answered 2 (arrival 2 nastok (97 ∷ [])) (97 ∷ []) there refl deletes

-- two threads of the process 512, whose handles are 256 apart
thread_id-shares_example :
    (getmyresponse answered 2 ≡ returns (some (arrival 2 nastok (97 ∷ []))))
    × (checkresponse answered 2 ≡ returns true)
unfolding thread_id
thread_id-shares_example =
    thread_id-shares 2 258 512 waiting nastok (97 ∷ []) [] refl (omega arith) arrives
