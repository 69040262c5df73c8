-- ===== src/Lib.antt =====
-- Telebra: a telepresence robot. This library models MotorDriver, the program on the robot: a web
-- server takes orders for the two motors, and a driver sends them over a serial port to a Qik 2s9v1
-- motor controller. It also models ZebraHttpd, a stand-alone web server of which the robot's is a
-- changed copy.
--
-- The parts and how they interact. `main` (MotorDriver.c) sets up the GPIO pins, starts a thread for
-- the serial port and one for the web server, queues its first queries and calls `processQikState`
-- over and over: that stops the motors when no order came for a while, and takes the commands out of
-- the command queue, a ring of bytes under a mutex, and writes them to the port. The web server's
-- threads run `accept_request` (httpd.c); a POST to motor_control.c reaches `processMotorControl`
-- (Qik2s9v1.c), which builds two commands and queues them. The serial thread (SerialPort.c) sets the
-- port up, reads it and hands each byte to `processResponse`. ZebraHttpd runs by itself: it runs a
-- script in a child process, with a pipe for its input and one for its output.
--
-- Which file models which part:
--   Base         shared types: C's comparisons, lists, `int`, and the monad of stateful calls; an
--                `Outcome` is a return, a wait for ever on a mutex, undefined behaviour, a loop whose
--                fuel ran out, or the end of the process. `Keeps` and `Sound` say what holds of the
--                state that a call comes to, however it ends
--   Libc         what the code uses of the C library's string functions, and `atoi`
--   Main         MotorDriver/MotorDriver.c: initializeGpio, errorFunc and main;
--                Main/Order: an order of the page through the web server, the queue and the port;
--                Main/Reached: the driver under all calls of the program, in any order
--   Qik          MotorDriver/Qik2s9v1.c and .h. Qik/State: the globals; Qik/Queue: QueueQikCommand
--                and the reads of DequeueQikCommand; Qik/Commands: getFirmwareVersion to
--                setM1Reverse; Qik/Response: processResponse; Qik/Serial: getCurrentTime, sendCommand,
--                DequeueQikCommand, processQikState; Qik/Motor: processMotorControl; Qik/Threads:
--                QueueQikCommand against the loop of DequeueQikCommand, step by step; Qik/Workers:
--                the same with any number of threads that queue, and the mutex. Qik/Typed and
--                Qik/Whole: what holds of the globals between calls
--   SerialPort   MotorDriver/SerialPort.c: writeToSerialPort, and the loop of readSerial over the
--                bytes received; SerialPort/Termios and SerialPort/Setup: initializeSerialPort and
--                cleanUpSerialPort over the attributes of a port
--   Web          MotorDriver/httpd.c and webpages.c. Web/State: a connection, and the surroundings of
--                a handler; Web/GetLine: get_line and the loops over header lines; Web/Pages: the
--                fixed responses of webpages.c; Web/File: serve_file; Web/Cgi: execute_cgi;
--                Web/Request: accept_request; Web/Request/Kept: what a request can do to the driver;
--                Web/Accept: the loop of httpdMain against its threads;
--                Web/Startup: startup, error_die and httpdMain
--   Zebra        ZebraHttpd/httpd.c: cat, headers, serve_file; Zebra/Cgi: execute_cgi, but for the
--                copying between server and child, which Zebra/Cgi/Pipes has as steps of the two;
--                Zebra/Script: the child and the environment of a script; Zebra/Request: accept_request;
--                Zebra/Startup: startup and main. What both servers share is used from Web
-- The modules below these hold the theorems, named for what they are about; those called Tests apply
-- them at concrete inputs.
--
-- What stands for the surroundings. Bytes are numbers below 256, buffers are lists. `Moment` says,
-- for each reading of the clock, what `gettimeofday` answers and which bytes of the port were
-- processed since the last one, so that the reading thread acts between the steps of the main thread.
-- `Platform` answers for the GPIO library and for `pthread_create`. The bits of a `termios` flag word
-- are read from `TermiosLib`, which gives each constant of termios.h bit by bit.
-- `Client` has the bytes that the client sends before it closes its side; `recv` fails behind them.
-- Each `send` appends its buffer to the output, whole. `Host` gives `stat` and `fopen`, and what the
-- uninitialised locals of the handlers hold, so that a theorem for all hosts is one for all of these.
-- A `File` has its bytes and an end, or no end that `fgets` meets, as a device or a directory.
-- `Spawn` says whether `pipe` and `fork` succeed; a pipe takes a number of bytes that is a parameter.
-- A handler runs without steps of other threads in between. What depends on their order has a model
-- of its own, a step relation: Web/Accept for httpdMain and the starts of its threads, Qik/Threads
-- for the queue's two ends, Qik/Workers for any number of threads at one end, and Zebra/Cgi/Pipes for
-- a server and its script. `Reached` takes calls as whole steps, in any order.
--
-- Bounds and fuel. Times are 64-bit and wrap; a `uint8_t` speed is below 256; the ring has 1024
-- bytes and its indices wrap at that. `DequeueQikCommand` gets 1024 rounds, more than the ring can
-- hold commands; the wait of `sendCommand` takes its number of rounds as an argument, and the
-- theorems ask of the clock that it passes the timeout within them. The loops over header lines get
-- two rounds more than there are bytes to read, and each round but the last takes one or more; the
-- loop over a file gets two rounds more than it has bytes; that over a file without an end is cut off
-- after a number of rounds that the host gives. The loop around `bind` has fuel, and the
-- theorems ask that `bind` works before it is used up; the endless loops of `main` and `httpdMain` are
-- cut off after a number of rounds. "%d" takes a round for each digit, and gets as many rounds as the
-- number says. `content_length` is an integer; one that does not fit an `int` stands for the
-- undefined behaviour of the `atoi` that it came from, and `execute_cgi` faults on it.
--
-- Not modelled: the web pages and the make files, which have no logic of the robot. Functions of
-- ZebraHttpd that are word for word those of the robot's server (error_die, get_line, the fixed
-- responses) have no second model. What the handlers print on the console is left out, but for
-- `processResponse`. A `recv` that fails for a moment and works again later is not covered. What
-- the program that `execl` starts does is not modelled, but for the bytes that it takes from and
-- puts into its pipes.
pub mod Base
pub mod Qik
pub mod Libc
pub mod Web
pub mod SerialPort
pub mod Main
pub mod Zebra
