-- ===== src/Storing/Runs.antt =====
-- Sequences of calls of Edge/stateclient.cpp on one server, and what they answer by the history of
-- the calls alone.
use Prim.Native.String.{◌++◌, len}
use text.Mathlib.TextPositions.{len-append}
use serverlessonedge.Prelude.{
  String, Bool, true, false, Option, none, some, List, [], ◌∷◌, if◌then◌else◌, is_some, str_eq,
  str_eq_iff, ◌≡◌, refl, arith, ap, ap₂, ◌∙◌, Option-cases, Bool-cases, inl, inr, ℕ, ◌+◌, sym,
}
use serverlessonedge.Prelude.Map.{find, find-insert, find-erase, find-nil}
use serverlessonedge.Storing.Server.{StateRepo}
use serverlessonedge.Storing.Client
use serverlessonedge.Storing.Server

pub data Call : Type 0 where
  get : String → String → Call
  put : String → String → Call
  del : String → Call

pub data Answer : Type 0 where
  got : Bool → String → Answer
  stored : Answer
  deleted : Bool → Answer

unfoldable pub call : Call → StateRepo → Answer × StateRepo
unfolding Client.get Client.put Client.del
call (get name state) repo = (let r = Client.get name state repo in got r.0 r.1, repo)
call (put name state) repo = (stored, Client.put name state repo)
call (del name) repo = (let r = Client.del name repo in (deleted r.0, r.1))

unfoldable pub run : List Call → StateRepo → List Answer
unfolding call
run [] repo = []
run (c ∷ cs) repo = let r = call c repo in r.0 ∷ run cs r.1

-- The content of a name after a history of calls, the last one first.
unfoldable pub content_after : List Call → String → Option String
content_after [] k = none
content_after (get name state ∷ h) k = content_after h k
content_after (put name state ∷ h) k = if str_eq name k then some state else content_after h k
content_after (del name ∷ h) k = if str_eq name k then none else content_after h k

abbrev pub reply : Option String → Call → Answer
reply none (get name state) = got false state
reply (some content) (get name state) = got true content
reply o (put name state) = stored
reply o (del name) = deleted (is_some o)

abbrev pub name_of : Call → String
name_of (get name state) = name
name_of (put name state) = name
name_of (del name) = name

unfoldable pub replies : List Call → List Call → List Answer
unfolding content_after
replies h [] = []
replies h (c ∷ cs) = reply (content_after h (name_of c)) c ∷ replies (c ∷ h) cs

-- A text that a longer one begins is not "OK".
not_ok : (p s : String) (n : ℕ) → len p ≡ 3 + n → str_eq (p ++ s) "OK" ≡ false
not_ok p s n long = elim (Bool-cases (str_eq (p ++ s) "OK")) [
  | inl e ↦
      let two : 3 + n + len s ≡ 2 =
        ap (λ k. k + len s) (sym long)
        ∙ sym (len-append p s)
        ∙ ap len ((str_eq_iff (p ++ s) "OK").0 e) in
      absurd (omega arith)
  | inr e ↦ e
]

not_found : (s : String) → str_eq ("could not find state: " ++ s) "OK" ≡ false
not_found s = not_ok "could not find state: " s 19 refl

not_there : (s : String) → str_eq ("state not found: " ++ s) "OK" ≡ false
not_there s = not_ok "state not found: " s 14 refl

abbrev Shows : StateRepo → List Call → Type 0
Shows repo h = (k : String) → find k repo ≡ content_after h k

call-reply : (c : Call) (repo : StateRepo) → (call c repo).0 ≡ reply (find (name_of c) repo) c
unfolding call Client.get Client.del Server.get Server.del
call-reply (get name state) repo = elim (Option-cases (find name repo)) [
  | inl e ↦ ground (arith, e, not_found name)
  | inr (v, e) ↦ rw (Server.get-found (Client.named name "") Client.empty_response repo v e, e) refl
]
call-reply (put name state) repo = refl
call-reply (del name) repo = elim (Option-cases (find name repo)) [
  | inl e ↦ rw (Server.del, e) (ap deleted (not_there name))
  | inr (v, e) ↦ rw (Server.del, e) refl
]

call-Shows :
    (c : Call) (repo : StateRepo) (h : List Call) → Shows repo h → Shows (call c repo).1 (c ∷ h)
unfolding call content_after Client.put Client.del Server.put Server.del
call-Shows (get name state) repo h s k = s k
call-Shows (put name state) repo h s k = ground (arith, find-insert name k state repo, s k)
call-Shows (del name) repo h s k =
    ground (arith, find-erase name k repo, s k, s name, str_eq_iff name k)

run-replies :
    (cs : List Call) (repo : StateRepo) (h : List Call) → Shows repo h → run cs repo ≡ replies h cs
unfolding run replies
run-replies [] repo h s = refl
run-replies (c ∷ cs) repo h s =
    ap₂ (λ a rest. a ∷ rest) (call-reply c repo ∙ ap (λ o. reply o c) (s (name_of c)))
      (run-replies cs (call c repo).1 (c ∷ h) (call-Shows c repo h s))

-- Whatever calls the clients of a new server make, each answer is the one that the calls before
-- it determine: a name has the content that was put last under it, unless it was deleted since.
pub run_lem : (cs : List Call) → run cs [] ≡ replies [] cs
unfolding content_after
run_lem cs = run-replies cs [] [] (λ k. find-nil k)
