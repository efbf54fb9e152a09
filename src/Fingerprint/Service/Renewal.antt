-- ===== src/Fingerprint/Service/Renewal.antt =====
-- What a new session knows of the failed attempts before it.
use android_hardware_xiaomi.Common.{
  ℕ, ◌≡◌, refl, subst, if_intro, ◌∙◌, List, [], ◌∷◌, Option, none, some, arith,
}
use android_hardware_xiaomi.Fingerprint.Token.{Endian}
use android_hardware_xiaomi.Fingerprint.Session.{Session, Step, Clock, Message, Call, new_session}
use android_hardware_xiaomi.Fingerprint.Service.{
  Service, has_open_session, past_enrollments, with_session, service_notify, create_session,
  call_session,
}

pub data Event : Type 0 where
  message_comes : Clock → Endian → Message → Event
  session_created : ℕ → Event
  method_called : (Session → Step) → Event

-- The service after an event, if the process goes on.
abbrev pub step : Event → Service → Option Service
step (message_comes clock endian message) v = some (service_notify clock endian message v).0
step (session_created user) v = elim (create_session user v) [ none ↦ none | some r ↦ some r.0 ]
step (method_called method) v = some (call_session method v).0

abbrev pub run : List Event → Service → Option Service
run [] v = some v
run (e ∷ events) v = elim (step e v) [ none ↦ none | some t ↦ run events t ]

abbrev Keeps : Service → Option Service → Type 0
Keeps v none = Unit
Keeps v (some t) = t.tracker ≡ v.tracker

Keeps-trans : (v t : Service) (o : Option Service) → t.tracker ≡ v.tracker → Keeps t o → Keeps v o
Keeps-trans v t none same keeps = tt
Keeps-trans v t (some w) same keeps = keeps ∙ same

abbrev Created : Service → Option Service → Type 0
Created w none = Unit
Created w (some u) = (s : Session) × (u.session ≡ some s) × (s.tracker ≡ w.tracker)

abbrev of_create : Option (Service × List Call) → Option Service
of_create o = elim o [ none ↦ none | some r ↦ some r.0 ]

step-Keeps : (e : Event) (v : Service) → Keeps v (step e v)
unfolding service_notify create_session call_session
step-Keeps (message_comes clock endian message) v = ground arith
step-Keeps (session_created user) v =
    let made =
      some (with_session v (new_session v.has_udfps user v.tracker (past_enrollments v.session))) in
    if_intro (λ (o : Option (Service × List Call)). Keeps v (of_create o))
      (has_open_session v.session) none made tt refl
step-Keeps (method_called method) v = ground arith

create_session-Created : (user : ℕ) (w : Service) → Created w (step (session_created user) w)
unfolding create_session new_session
create_session-Created user w =
    let r = new_session w.has_udfps user w.tracker (past_enrollments w.session) in
    if_intro (λ (o : Option (Service × List Call)). Created w (of_create o))
      (has_open_session w.session) none (some (with_session w r)) tt (r.0, refl, refl)

goes_on :
    (v : Service) (events : List Event) (o : Option Service)
    → Keeps v o
    → ((t : Service) → Keeps t (run events t))
    → Keeps v (elim o [ none ↦ none | some t ↦ run events t ])
goes_on v events none keeps later = tt
goes_on v events (some t) keeps later = Keeps-trans v t (run events t) keeps (later t)

run-Keeps : (events : List Event) (v : Service) → Keeps v (run events v)
run-Keeps [] v = refl
run-Keeps (e ∷ events) v = goes_on v events (step e v) (step-Keeps e v) (λ t. run-Keeps events t)

-- Whatever messages came, sessions were created and methods called before, a new session starts with
-- the lockout tracker that the service had at first: the failed attempts and the lockout of the
-- sessions before it are forgotten.
pub run-created :
    (events : List Event) (user : ℕ) (v w u : Service)
    → run events v ≡ some w
    → step (session_created user) w ≡ some u
    → (s : Session) × (u.session ≡ some s) × (s.tracker ≡ v.tracker)
run-created events user v w u before created =
    let kept : w.tracker ≡ v.tracker = subst (Keeps v) before (run-Keeps events v) in
    let new : Created w (some u) = subst (Created w) created (create_session-Created user w) in
    (new.0, new.1, new.2 ∙ kept)
