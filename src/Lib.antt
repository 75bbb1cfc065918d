-- ===== src/Lib.antt =====
-- dsoal: DirectSound for Windows programs, over OpenAL. This library models the driver's core: the
-- wave formats and the sample storage (src/buffer.cpp, src/buffer.h), the device with its counted
-- sources (src/dsoundoal.h), the secondary buffer (src/buffer.cpp), the primary buffer with the
-- listener (src/primarybuffer.cpp, src/primarybuffer.h), the pool of buffers and the sound object that
-- owns it (src/dsoundoal.cpp), the capture object with its buffer (src/capture.cpp), and the full duplex
-- object (src/fullduplex.cpp).
--
-- A sound object (`DSound8OAL`) makes secondary buffers in a pool of preallocated groups. A buffer
-- refers to a `SharedBuffer`, its sample storage with an OpenAL buffer, and takes an OpenAL source from
-- the `SharedDevice` while it has a location, hardware or software; the device counts both kinds. A
-- playing buffer with position notifications is in a list of the sound object, whose thread updates
-- every buffer of the list and signals the events that the play position has passed. At the level
-- DSSCL_WRITEPRIMARY the secondary buffers are lost, and the one `PrimaryBuffer` plays what is written
-- to it through an emulation, a secondary buffer of its own that takes a source like any other. The
-- primary buffer holds the listener, whose deferred parameters are committed with those of every 3D
-- buffer.
--
-- Files and the code that they model:
--   Prelude: no code; Boolean tests, lists, integers and lemmas.
--   Win: constants and structures of the Windows SDK, with their documented values.
--   Al: the OpenAL constants, the calls as values, `mB_to_gain` (src/dsoal.h).
--   Format: `ConvertFormat`, `GetALFormat`.
--   SharedBuffer: `SharedBuffer::Create`.
--   Device: the counters of `SharedDevice`; Share: `CreateDeviceShare`; Sharing: the list of devices,
--     `GetById`, `Release`, `dispose`.
--   Buffer: the state of `Buffer`. Below it, Location: `setLocation`, `~Buffer`; Cursor:
--     `GetCurrentPosition`, `SetCurrentPosition`, `Lock`, `Unlock`; Playback: `Play`, `Stop`,
--     `AcquireResources`, `Restore`, `GetStatus`, `GetCaps`; Notify: `updateNotify` and
--     `SetNotificationPositions`; Spatial: `setParams`, `commit`; Setters: the setters of `Buffer3D`;
--     Control: volume, pan and frequency; Setup: the constructor and `Initialize`; References: the
--     reference counts and `QueryInterface`.
--   Primary: the state of `PrimaryBuffer`. Below it, Listener3d: `Listener3D`, `setParams`, `commit`,
--     with `alcSuspendContext` and `alcProcessContext` as calls;
--     Formats: the formats of `SetFormat` and `GetFormat`; Queries: the operations that only pass on or
--     answer, and `SetVolume`; Emulation: `createWriteEmu`, `Initialize`, `Play`, `Stop`, `SetPan`,
--     `SetFormat`; References: its reference counts and its property set; Calls: what
--     clients call that leaves the device alone.
--   Notify: the check and the order of position notifications.
--   Pool: `BufferSubList`, `createSecondaryBuffer`, `dispose`. Undone, Sums and Every: creation undone
--     by `dispose`, what a sum over the slots becomes, and what holds of every buffer.
--   Capture: `DSCBuffer` of src/capture.cpp: one round of `captureThread`, `Start`, `Stop` and its
--     notifications; Locking: its `Lock`, `Unlock` and `GetCurrentPosition`; Setup: its `Initialize` and
--     the buffers that clients can reach; Queries: its getters; Object: `DSCapture`.
--   DSound8: `DSound8OAL`, its lists of buffers, `addNotifyBuffer`, `triggerNotifies`, `dispose`. An
--     operation that the code leaves undefined, the use of a destroyed buffer or of a null pointer,
--     gives `none` there. Below it, Level: `SetCooperativeLevel`; Creation: `CreateSoundBuffer`,
--     `DuplicateSoundBuffer`; Opening: `Initialize`, `GetCaps` and the speaker configuration; Clients:
--     the calls on the sound object, its secondary buffers and its primary one as changes of the whole
--     object, with the invariant of every reachable object.
--   FullDuplex: `Initialize` of `DSFullDuplex`, made of the models of the two objects and their buffers.
-- Modules named Tests, and DSound8.Trials, hold concrete inputs. The other children hold proofs.
--
-- How the code is read. An operation is a function of the state that gives the new state, the result
-- and the calls on OpenAL in order; what OpenAL answers is an argument. `alGetError` is left out
-- where its result is dropped. A call on the sound object is a value too (`ParentCall`), and what it
-- does to the list is in DSound8. An operation runs under the sound object's mutex, so it is one
-- step; so is each compare-and-exchange loop of the device. `DWORD` arithmetic is written out modulo
-- 2^32, `size_t` is the naturals. A pointer into the samples is its offset, and a pointer to a
-- pooled buffer is its group and slot. A 64-bit mask is the list of its bits. Floats are an
-- interface, `Floats`: no property depends on their arithmetic, but for `IsFloat`: 1 and 1000000000
-- are not negative. The extensions of the sound object are those of its device.
--
-- `Release` of a device is two steps, since only its `dispose` takes the mutex of the list. A sound
-- object is here one that has a device, and `Opening` says how it gets it. The product of two C
-- `int`s in the check of a format is that of the naturals, 343.3f is 3433 / 10, and FLT_MIN and
-- FLT_MAX are parameters of `Floats`. The emulation has no notifications, so that what its `Play`
-- and `Stop` would tell the sound object is left out.
--
-- In Clients a call changes the whole object: what it returns and its calls of OpenAL are in the module
-- of the operation, and the events that a round signals are in DSound8. A creation there is permitted
-- where the allocation of a group of buffers does not throw, and the last `Release` of a buffer where it
-- awaits no notification. `SubListAllocator` is `std::allocator`, which never gives a null pointer: the
-- code's null tests after it never succeed, and an exception in a `noexcept` method ends the program,
-- which is `none` too. `Clients.Reachable` is about a sound object that is the only one on its device;
-- one that gets an open device from `GetById` shares its counters and is not covered there.
--
-- Not modelled: the sample values but for their first one, the start of the notification thread,
-- logging, and the components that handle only Windows or text (entry points, enumeration, class
-- factory, COM helpers). The references of the sound object, the property sets with EAX,
-- `GetFormat`, `SetFX` and `GetObjectInPath` of the secondary buffer, the references of the capture and
-- full duplex objects, the exceptions that their creation can throw, and the calls that the full duplex
-- object only forwards are not modelled either.
--
-- The one loop on fuel is that of a capture round: a step for each available frame, and one more,
-- are enough. The other loops go through a list.
pub mod Prelude
pub mod Win
pub mod Al
pub mod Format
pub mod SharedBuffer
pub mod Notify
pub mod Pool
pub mod Device
pub mod Buffer
pub mod Primary
pub mod DSound8
pub mod FullDuplex
pub mod Capture
