-- ===== src/Irc/Server/Replies.antt =====
-- irc/src/reply.c: a reply goes to the client that it is for, and changes nothing else.
use mathlib.Core.List.{append_assoc, append-nil}
use chi.Prelude.{
  zero, suc, ℕ, ◌≡◌, refl, sym, ◌∙◌, ap, Bool, true, false, if◌then◌else◌, Option, none, some, List,
  [], ◌∷◌, ◌++◌,
}
use chi.Db.Run.{Run, returns, aborted, undefined, out_of_fuel, ◌>>=◌}
use chi.Irc.Reply.{
  Archived, send_archived_msg, send_rpl_namreply, send_rpl_endofnames, State, Event, sent, closes,
  emit, with_string, send_reply, put_reply, numeric, send_rpl_welcome, send_rpl_motdstart,
  send_rpl_motd, send_rpl_endofmotd, send_err_nicknameinuse, send_rpl_luserclient, send_rpl_luserop,
  send_rpl_luserunknown, send_rpl_luserchannels, send_rpl_luserme, send_err_nomotd,
}
use chi.Irc.Server.{
  send_archived_from, join_replies, send_lines, handle_motd_msg, handle_lusers_msg,
}

-- Where a run returns, the value has the property; it does return, or is undefined.
abbrev pub Result : {A : Type 0} → (A → Type 0) → Run A → Type 0
Result P (returns a) = P a
Result P aborted = Unit
Result P undefined = Unit
Result P out_of_fuel = ⊥

pub record Ends {A : Type 0} (P : A → Type 0) (run : Run A) : Type 0 where
  pub result : Result P run

bind-Result :
    {A B : Type 0} (P : A → Type 0) (Q : B → Type 0) (run : Run A) (f : A → Run B)
    → Result P run
    → ((a : A) → P a → Ends Q (f a))
    → Result Q (run >>= f)
bind-Result P Q (returns a) f h k = (k a h).result
bind-Result P Q aborted f h k = tt
bind-Result P Q undefined f h k = tt
bind-Result P Q out_of_fuel f h k = h

pub bind-Ends :
    {A B : Type 0} (P : A → Type 0) (Q : B → Type 0) {run : Run A} {f : A → Run B}
    → Ends P run
    → ((a : A) → P a → Ends Q (f a))
    → Ends Q (run >>= f)
bind-Ends P Q {run} {f} h k = record { result = bind-Result P Q run f h.result k }

map-Result :
    {A : Type 0} (P Q : A → Type 0) (run : Run A)
    → ((a : A) → P a → Q a)
    → Result P run
    → Result Q run
map-Result P Q (returns a) k h = k a h
map-Result P Q aborted k h = tt
map-Result P Q undefined k h = tt
map-Result P Q out_of_fuel k h = h

pub map-Ends :
    {A : Type 0} (P Q : A → Type 0) {run : Run A} → ((a : A) → P a → Q a) → Ends P run → Ends Q run
map-Ends P Q {run} k h = record { result = map-Result P Q run k h.result }

either-Result :
    {A : Type 0} (P : A → Type 0) (b : Bool) (x y : Run A)
    → Result P x
    → Result P y
    → Result P (if b then x else y)
either-Result P true x y p q = p
either-Result P false x y p q = q

pub either-Ends :
    {A : Type 0} (P : A → Type 0) (b : Bool) (x y : Run A)
    → Ends P x
    → Ends P y
    → Ends P (if b then x else y)
either-Ends P b x y p q = record { result = either-Result P b x y p.result q.result }

with_string-Result :
    (P : State → Type 0) (x : Option (List ℕ)) (f : List ℕ → Run State)
    → ((s : List ℕ) → Ends P (f s))
    → Result P (with_string x f)
with_string-Result P none f h = tt
with_string-Result P (some s) f h = (h s).result

pub with_string-Ends :
    (P : State → Type 0) (x : Option (List ℕ)) (f : List ℕ → Run State)
    → ((s : List ℕ) → Ends P (f s))
    → Ends P (with_string x f)
with_string-Ends P x f h = record { result = with_string-Result P x f h }

pub returns-Ends : {A : Type 0} (P : A → Type 0) (a : A) → P a → Ends P (returns a)
returns-Ends P a h = record { result = h }

pub undefined-Ends : {A : Type 0} (P : A → Type 0) → Ends {A = A} P undefined
undefined-Ends P = record { result = tt }

-- The bytes go to the client, or the client's connection ends.
abbrev pub IsTo : ℕ → Event → Type 0
IsTo client (sent c bytes) = c ≡ client
IsTo client (closes c) = c ≡ client

abbrev pub AllTo : ℕ → List Event → Type 0
AllTo client [] = Unit
AllTo client (e ∷ es) = IsTo client e × AllTo client es

-- A state with more events for the client, and nothing else changed.
abbrev pub Replies : ℕ → State → State → Type 0
Replies client s t =
    (es : List Event) × AllTo client es × (t ≡ record s { events = s.events ++ es })

pub AllTo-append :
    (client : ℕ) (es fs : List Event) → AllTo client es → AllTo client fs → AllTo client (es ++ fs)
AllTo-append client [] fs a b = b
AllTo-append client (e ∷ es) fs (h, a) b = (h, AllTo-append client es fs a b)

pub Replies-none : (client : ℕ) (s : State) → Replies client s s
Replies-none client s =
    ([], tt, ap (λ (es : List Event). record s { events = es }) (sym (append-nil s.events)))

pub Replies-trans :
    (client : ℕ) (s t u : State) → Replies client s t → Replies client t u → Replies client s u
Replies-trans client s t u (es, a, e) (fs, b, f) = (
  es ++ fs,
  AllTo-append client es fs a b,
  f
      ∙ ap (λ (x : State). record x { events = x.events ++ fs }) e
      ∙ ap (λ (es : List Event). record s { events = es }) (append_assoc s.events es fs),
)

pub emit-Replies :
    (client : ℕ) (e : Event) (s : State) → IsTo client e → Replies client s (emit e s)
emit-Replies client e s h = (e ∷ [], (h, tt), refl)

-- Replies one after the other.
pub then-Replies :
    (client : ℕ) (s : State) (run : Run State) (f : State → Run State)
    → Ends (Replies client s) run
    → ((t : State) → Ends (Replies client t) (f t))
    → Ends (Replies client s) (run >>= f)
then-Replies client s run f h k = bind-Ends (Replies client s) (Replies client s) h (λ t r.
    map-Ends (Replies client t) (Replies client s) (λ u q. Replies-trans client s t u r q) (k t))

pub emitted-Replies :
    (client : ℕ) (bytes : List ℕ) (s : State)
    → Ends (Replies client s) (returns (emit (sent client bytes) s))
emitted-Replies client bytes s = record { result = emit-Replies client (sent client bytes) s refl }

pub put_reply-Replies :
    (client : ℕ) (reply : List ℕ) (s : State) → Ends (Replies client s) (put_reply client reply s)
unfolding put_reply send_reply
put_reply-Replies client reply s = search (either-Ends, emitted-Replies, undefined-Ends)

pub numeric-Replies :
    (code : List ℕ) (client : ℕ) (parts : List (List ℕ)) (s : State)
    → Ends (Replies client s) (numeric code client parts s)
unfolding numeric
numeric-Replies code client parts s = search (with_string-Ends, put_reply-Replies)

pub ruleset reply_rules = (
  either-Ends, with_string-Ends, put_reply-Replies, numeric-Replies, then-Replies, undefined-Ends,
)

pub welcome-Replies : (client : ℕ) (s : State) → Ends (Replies client s) (send_rpl_welcome client s)
unfolding send_rpl_welcome
welcome-Replies client s = search reply_rules

pub nicknameinuse-Replies :
    (client : ℕ) (old new : Option (List ℕ)) (s : State)
    → Ends (Replies client s) (send_err_nicknameinuse client old new s)
unfolding send_err_nicknameinuse
nicknameinuse-Replies client old new s = search reply_rules

pub lusers-Replies : (client : ℕ) (s : State) → Ends (Replies client s) (handle_lusers_msg client s)
unfolding handle_lusers_msg send_rpl_luserclient send_rpl_luserop send_rpl_luserunknown
    send_rpl_luserchannels send_rpl_luserme
lusers-Replies client s = search reply_rules

send_lines-Replies :
    (lines : List (List ℕ)) (client : ℕ) (s : State)
    → Ends (Replies client s) (send_lines lines client s)
unfolding send_lines send_rpl_motd
send_lines-Replies [] client s = record { result = Replies-none client s }
send_lines-Replies (line ∷ lines) client s = search (reply_rules, send_lines-Replies lines)

pub motd-Replies :
    (file : Option (List (List ℕ))) (client : ℕ) (s : State)
    → Ends (Replies client s) (handle_motd_msg file client s)
unfolding handle_motd_msg send_err_nomotd send_rpl_motdstart send_rpl_endofmotd
motd-Replies none client s = search reply_rules
motd-Replies (some lines) client s = search (reply_rules, send_lines-Replies lines)

archived_msg-Replies :
    (client : ℕ) (archived : Archived) (s : State)
    → Ends (Replies client s) (send_archived_msg client archived s)
unfolding send_archived_msg
archived_msg-Replies client archived s = search (with_string-Ends, emitted-Replies) depth 12

unchanged-Replies : (client : ℕ) (s : State) → Ends (Replies client s) (returns s)
unchanged-Replies client s = record { result = Replies-none client s }

archived-Replies :
    (rounds i client channel : ℕ) (s : State)
    → Ends (Replies client s) (send_archived_from rounds i client channel s)
unfolding send_archived_from
archived-Replies zero i client channel s = unchanged-Replies client s
archived-Replies (suc rounds) i client channel s =
    search (reply_rules, unchanged-Replies, archived_msg-Replies, archived-Replies rounds)

pub join_replies-Replies :
    (channel client : ℕ) (name : List ℕ) (s : State)
    → Ends (Replies client s) (join_replies channel client name s)
unfolding send_rpl_namreply send_rpl_endofnames
join_replies-Replies channel client name s = search (reply_rules, archived-Replies)
