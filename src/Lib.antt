-- ===== src/Lib.antt =====
-- The bidder of tabmo-codding-challenge: an HTTP server that reads its campaigns from a JSON file,
-- and answers each bid request with a campaign that is compatible with it, which then pays its price.
--
-- Parts, each with the file that models it:
-- - src/Campagne.h, src/Campagne.cpp: Campagne.antt. The attributes are a record; the constructor
--   (`construct`) gives the campaign or an exception; `decremente_budget` gives the changed campaign
--   beside its result. Campagne/Validation.antt and Campagne/Budget.antt have the theorems.
--   Campagne/Objects.antt adds the mutex: the copies and moves work on a store of objects, where an
--   object is a place, and lock the mutexes of both.
-- - src/BidRequest.h: BidRequest.antt.
-- - src/CampagnesManager.cpp, ParseCampagnesFromJson, GetFilterFromItr, GetCampagnesCount:
--   CampagnesManager/Parse.antt. The list of campaigns is passed on from entry to entry. A map is an
--   association list in the order of its keys (Parse/FilterMap.antt).
-- - The same functions on objects: CampagnesManager/Memory.antt. The vector is a list of places in the
--   store of Campagne/Objects.antt, with the mutex of the list, mAccesCampagnes. An entry makes a local
--   object, push_back copies it, and all elements where the vector is full, by the copy constructor with
--   its locks, and objects end where the code ends them. A second lock by the one thread, the end of a
--   locked mutex, and the use of an object after its end are results of their own. Startup/Memory.antt is
--   main on these objects, up to what the threads of the server share.
-- - src/CampagnesManager.cpp, the loop of SelectCampagne: CampagnesManager/Compatible.antt. The loop
--   gives positions where the code has pointers, and the request, which it puts in lower case.
-- - src/CampagnesManager.cpp, RandomSelectCampagne: CampagnesManager/Draw.antt. The number that is
--   drawn is an argument, so what is shown holds for every draw. Draw/Shares.antt compares the result
--   with the exact shares of the budgets.
-- - src/CampagnesManager.cpp, the purchase in SelectCampagne and CreerJsonFromCampagne:
--   CampagnesManager/Select.antt. The result is the list after the purchase, the request, and a JSON
--   value or an exception; `none` is undefined behaviour of C++.
-- - SelectCampagne in several threads: CampagnesManager/Threads.antt. What a thread does under the lock
--   of one campaign is a step: a round of the loop, the reading of a budget in RandomSelectCampagne, or
--   the purchase. The end of the loop and the draw, which lock nothing, are steps of their own. A
--   schedule says whose step is next. CampagnesManager/Bill.antt counts the sales of each campaign.
-- - The mutexes of the campaigns: CampagnesManager/Locks.antt. A thread takes a mutex (`enter`, as
--   lock_guard does, or it waits), reads the campaign, does its work with the write of the budget
--   (`perform`), and gives the mutex back, each in a step of its own. Locks/Refinement.antt leads
--   these steps back to those of Threads.antt.
-- - src/RtbCtrl.cpp, asyncHandleHttpRequest: RtbCtrl.antt; RtbCtrl/Answers.antt and RtbCtrl/Ignored.antt
--   have what it answers to one request; RtbCtrl/Requests.antt runs it on one request
--   after the other, and RtbCtrl/Server.antt on requests in threads of their own, whose steps in
--   SelectCampagne are those of Threads.antt. RtbCtrl/Server/Locks.antt is that server with the steps of
--   CampagnesManager/Locks.antt, where a request may wait for a mutex; its Refinement.antt leads it back
--   to the server without mutexes, and its Work.antt and Rounds.antt count the steps that are left.
-- - src/tabmo-coding-challenge.cpp, main: Startup.antt. Startup/Service.antt puts main and the server
--   together, on lists and on the objects that main makes.
--
-- main parses the file into the list and starts the server; the handler reads a request and calls
-- SelectCampagne; SelectCampagne runs the loop, the draw and the purchase on the list.
--
-- Below these parts:
-- - Common.antt: the names of the libraries that all files share, tests and lemmas on lists, texts as
--   lists of bytes, integers, and results that may be C++ exceptions.
-- - Float.antt: the type `float` with its rounding, exactly as IEEE 754 has it. A finite value is a
--   sign and a number of units of 2 ^ -149. Constants of type `double` are their exact values, since a
--   `float` is widened without rounding. Float/Stof.antt and Float/Print.antt are `std::stof` and the
--   decimal output, in the C locale. Each operation on `float` is rounded to `float`, as on x86-64.
-- - Json.antt: JsonCpp, which is not in the repository, as a record of operations that the model takes
--   as an argument, with the laws that the theorems name. Json/Tree.antt is an instance of it.
-- - Examples.antt and the files below it: runs of the model on campaigns and requests of res/.
--
-- Bounds and fuel: the spacing of floats is found in at most 253 doublings, which reach the largest
-- float; decimal output of a number has more fuel than the number has digits; the theorems on the draw
-- are for up to 16777 campaigns, where the sum of the budgets, each at most 1000, is at most 2 ^ 24 and
-- so an exact `float` in the range of `int`; 100307 purchases of at least 0.01, less a rounding, are more
-- than the largest budget; the test of the ratios is exact for sizes up to 2896, whose products are below
-- 2 ^ 23; with the mutexes each request has at most 8 n + 14 steps, with n campaigns, in which it does not
-- wait, and in each round some request makes one of them; a price is read back for values up to 10.
--
-- Not modelled: drogon (a vendored copy under third-party/), the configuration and the build, and
-- log output, but for the calls that a log makes. The attributes that a new object has before they
-- are set, and the sizes at which the vector is full, are arguments of the model on objects. A
-- vector that grows copies its elements, since the move constructor is not noexcept; the standard
-- library leaves the order of these copies and of the new element open, and the model has the old
-- elements first. The objects that are in the vector when the program ends are not followed
-- further. Memory that runs out is not modelled, so no exception leaves a copy or a move between
-- its locks and unlocks. In Threads.antt a section under a lock is one step, which Locks.antt
-- justifies; elsewhere a function runs from its beginning to its end without another. A campaign is
-- read under its mutex in one step: the other members than its budget do not change. The debug log
-- of SelectCampagne reads the selected campaign before its mutex is taken: what this gives while
-- another thread writes the budget is undefined in C++, it is no step of the model, and what is
-- shown of several threads holds where debug output is off. An uncaught exception or undefined
-- behaviour ends a run of the model where the program would end or go on in an undefined way. C++
-- leaves open in which order the arguments of the constructor of Campagne are evaluated in
-- ParseCampagnesFromJson; the model reads them from the first to the last. For an entry with two
-- faults, of which one is a number beyond float, the order decides whether the program ends or
-- skips the entry. std::lock with one mutex twice is undefined behaviour, as the standard library
-- documents it, and so the model has it. A response with the status 204 has the JSON null for its
-- body, as the handler hands it to drogon; what drogon sends of it is not modelled. An exception
-- that leaves the handler is the result of that request.
pub mod Common
pub mod Float
pub mod Json
pub mod Campagne
pub mod BidRequest
pub mod CampagnesManager
pub mod RtbCtrl
pub mod Startup
pub mod Examples
