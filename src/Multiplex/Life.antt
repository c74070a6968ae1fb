-- ===== src/Multiplex/Life.antt =====
-- hiredis.c: the life of one cmdInfo, which __xRedisCommand makes in the thread of a caller and which
-- the thread of the event loop answers. A step is one access to what the threads share, or what is
-- done under a mutex that both take. Steps for other commands do not touch this cmdInfo.
pub mod Safety
pub mod Serial
use multiplexing_hiredis.Common.{
  ℕ, suc, ◌-◌, ◌≡◌, Bool, true, false, Option, none, some, List, [], ◌∷◌, leb, if◌then◌else◌,
}

-- cmdInfo, without the command itself. `posts` is the value of the semaphore.
pub record CmdInfo (Reply : Type 0) : Type 0 where
  pub reply : Option Reply
  pub reference : ℕ
  pub posts : ℕ

-- The memory of the cmdInfo.
pub data Cell (Reply : Type 0) : Type 0 where
  live : CmdInfo Reply → Cell Reply
  freed : Cell Reply

-- Where the caller's thread stands in __xRedisCommand, with its local variables: at the start of the
-- wait, behind it, with the reply read, with the reference given up while others held one, behind
-- the search of the list, at the end.
pub data Caller (Reply : Type 0) : Type 0 where
  waiting : Caller Reply
  woken : Caller Reply
  fetched : Option Reply → Caller Reply
  late : Option Reply → Caller Reply
  searched : Option Reply → Caller Reply
  returned : Option Reply → Caller Reply

-- Where the loop's thread stands in replyCallback: outside, before it stores the reply, and before it
-- posts the semaphore.
pub data Loop (Reply : Type 0) : Type 0 where
  outside : Loop Reply
  storing : Option Reply → Loop Reply
  posting : Loop Reply

-- Who has the pointer besides the caller: the queue of commands, the callbacks of the asynchronous
-- context, or nobody, where redisAsyncCommandHelper has refused the command or otherwise.
pub data Place : Type 0 where
  queued : Place
  sent : Place
  refused : Place
  gone : Place

-- `connected` is `xc->status == REDIS_CONNECTED`; `broken` tells that freed memory was used.
-- `answers` is what replyCallback was called with.
pub record Life (Reply : Type 0) : Type 0 where
  pub cell : Cell Reply
  pub caller : Caller Reply
  pub loop : Loop Reply
  pub place : Place
  pub connected : Bool
  pub broken : Bool
  pub answers : List (Option Reply)

-- The steps. Of the caller: the wait ends by the semaphore, by the time, or is skipped; the reply is
-- read; the reference is given up; the list is searched; the status is checked. Of the loop: the
-- command is sent, or refused, which taskDeal ignores; replyCallback gives up the reference, stores,
-- posts; disconnectedCallback takes the command off the queue, and marks the connection.
pub data Label (Reply : Type 0) : Type 0 where
  wake : Label Reply
  time_out : Label Reply
  skip_wait : Label Reply
  fetch : Label Reply
  give_up : Label Reply
  search_list : Label Reply
  check_status : Label Reply
  send : Label Reply
  refuse : Label Reply
  answer : Option Reply → Label Reply
  store_reply : Label Reply
  post : Label Reply
  clear : Label Reply
  disconnect : Label Reply

module _ {Reply : Type 0} where
  -- A command behind the first part of __xRedisCommand: the queue and the caller hold a reference.
  abbrev pub submitted : Life Reply
  submitted = record {
    cell = live (record { reply = none; reference = 2; posts = 0 });
    caller = waiting;
    loop = outside;
    place = queued;
    connected = true;
    broken = false;
    answers = [];
  }

  -- Work on the cmdInfo, which breaks the program if it has been freed.
  abbrev pub access : (CmdInfo Reply → Life Reply → Life Reply) → Life Reply → Life Reply
  access f s = elim s.cell [ live ci ↦ f ci s | freed ↦ record s { broken = true } ]

  -- `sem_destroy` and `free`
  abbrev pub release : Life Reply → Life Reply
  release s = access (λ ci s. record s { cell = freed }) s

  -- `__sync_sub_and_fetch(&ci->reference, 1) <= 0`: the memory is freed, and else `f` goes on.
  abbrev pub drop_reference :
      (Life Reply → Life Reply) → (Life Reply → Life Reply) → Life Reply → Life Reply
  drop_reference last f = access (λ ci s.
      if leb ci.reference 1
      then last (record s { cell = freed })
      else f (record s { cell = live (record ci { reference = ci.reference - 1 }) }))

  -- The value of the semaphore is positive: it is taken.
  abbrev take_post : CmdInfo Reply → Life Reply → Option (Life Reply)
  take_post ci s =
      if leb 1 ci.posts
      then some (record s { cell = live (record ci { posts = ci.posts - 1 }); caller = woken })
      else none

  abbrev pub wake_caller : Life Reply → Option (Life Reply)
  wake_caller s = elim s.cell [
    | live ci ↦ take_post ci s
    | freed ↦ some (record s { broken = true })
  ]

  -- `if (ci->reply == NULL)` fails
  abbrev pub skip_caller : Life Reply → Option (Life Reply)
  skip_caller s = elim s.cell [
    | live ci ↦ elim ci.reply [ none ↦ none | some _ ↦ some (record s { caller = woken }) ]
    | freed ↦ some (record s { broken = true })
  ]

  -- One step; `none` where it cannot be taken.
  unfoldable pub step : Label Reply → Life Reply → Option (Life Reply)
  step wake s = elim s.caller [ waiting ↦ wake_caller s | _ ↦ none ]
  step time_out s = elim s.caller [ waiting ↦ some (record s { caller = woken }) | _ ↦ none ]
  step skip_wait s = elim s.caller [ waiting ↦ skip_caller s | _ ↦ none ]
  step fetch s = elim s.caller [
    | woken ↦ some (access (λ ci s. record s { caller = fetched ci.reply }) s)
    | _ ↦ none
  ]
  step give_up s = elim s.caller [
    | fetched r ↦ some (
        drop_reference (λ s. record s { caller = returned r }) (λ s. record s { caller = late r })
          s)
    | _ ↦ none
  ]
  step search_list s = elim s.caller [
    | late r ↦ some (record s {
      caller = searched r;
      place = elim s.place [ queued ↦ gone | sent ↦ sent | refused ↦ refused | gone ↦ gone ];
    })
    | _ ↦ none
  ]
  step check_status s = elim s.caller [
    | searched r ↦ some (
        if s.connected
        then record s { caller = returned r }
        else release (record s { caller = returned r }))
    | _ ↦ none
  ]
  step send s = elim s.place [
    | queued ↦ elim s.loop [ outside ↦ some (record s { place = sent }) | _ ↦ none ]
    | _ ↦ none
  ]
  step refuse s = elim s.place [
    | queued ↦ elim s.loop [ outside ↦ some (record s { place = refused }) | _ ↦ none ]
    | _ ↦ none
  ]
  step (answer r) s = elim s.place [
    | sent ↦ elim s.loop [
      | outside ↦ some (
          drop_reference (λ s. s) (λ s. record s { loop = storing r })
            (record s { place = gone; answers = r ∷ s.answers }))
      | _ ↦ none
    ]
    | _ ↦ none
  ]
  step store_reply s = elim s.loop [
    | storing r ↦
        some (access (λ ci s. record s { cell = live (record ci { reply = r }); loop = posting }) s)
    | _ ↦ none
  ]
  step post s = elim s.loop [
    | posting ↦ some (
        access
          (λ ci s. record s { cell = live (record ci { posts = suc ci.posts }); loop = outside }) s)
    | _ ↦ none
  ]
  step clear s = elim s.place [
    | queued ↦ elim s.loop [
      | outside ↦ some (drop_reference (λ s. s) (λ s. s) (record s { place = gone }))
      | _ ↦ none
    ]
    | _ ↦ none
  ]
  step disconnect s = elim s.loop [ outside ↦ some (record s { connected = false }) | _ ↦ none ]

  -- Several steps, one after the other.
  unfoldable pub run : List (Label Reply) → Life Reply → Option (Life Reply)
  unfolding step
  run [] s = some s
  run (l ∷ ls) s = elim (step l s) [ none ↦ none | some t ↦ run ls t ]

  -- The states that are reached by steps that are allowed where they are taken.
  pub data Reach (allowed : Life Reply → Label Reply → Bool) : Life Reply → Type 0 where
    start : Reach allowed submitted
    later :
        {s t : Life Reply} (l : Label Reply)
        → Reach allowed s
        → allowed s l ≡ true
        → step l s ≡ some t
        → Reach allowed t

  -- An end of the wait before the semaphore is posted is not allowed.
  abbrev pub posted : Life Reply → Label Reply → Bool
  posted s time_out = false
  posted s skip_wait = false
  posted s _ = true

  abbrev pub is_outside : Loop Reply → Bool
  is_outside outside = true
  is_outside _ = false

  -- The connection stays up, and the caller takes no step while replyCallback runs.
  abbrev pub serial : Life Reply → Label Reply → Bool
  serial s clear = false
  serial s disconnect = false
  serial s send = true
  serial s refuse = true
  serial s (answer r) = true
  serial s store_reply = true
  serial s post = true
  serial s _ = is_outside s.loop
